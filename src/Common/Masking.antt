-- ===== src/Common/Masking.antt =====
-- The masking of secrets.
use Prim.Native.String.{count}
use text.Mathlib.TextLemmas.{length-nil, length-cons, length-append}
use kode_operator.Prelude.{
  String, str_eq, Bool, true, false, List, [], ◌∷◌, ◌||◌, ◌≡◌, refl, arith, inl, inr, Bool-cases,
}
use kode_operator.Api.{EnvVar}
use kode_operator.Objects.{Container}
use kode_operator.Common.{mask_string, mask_env_var, mask_env_vars, mask_spec}

-- A masked text has as many characters as the text.
pub count-mask_string : (s : String) → count (mask_string s) ≡ count s
unfolding mask_string
count-mask_string String.[] = refl
count-mask_string (String.◌∷◌ c s) =
    rw (length-append, length-cons, length-cons, length-nil, count-mask_string s) (omega arith)

-- Two texts of the same number of characters are masked alike.
pub mask_string-blind : (s t : String) → count s ≡ count t → mask_string s ≡ mask_string t
unfolding mask_string
mask_string-blind String.[] String.[] e = refl
mask_string-blind String.[] (String.◌∷◌ d t) e = absurd (omega (arith, length-nil, length-cons d t))
mask_string-blind (String.◌∷◌ c s) String.[] e = absurd (omega (arith, length-nil, length-cons c s))
mask_string-blind (String.◌∷◌ c s) (String.◌∷◌ d t) e =
    let e' : count s ≡ count t = omega (arith, length-cons c s, length-cons d t) in
    cc (mask_string-blind s t e')

pub mask_string_idem : (s : String) → mask_string (mask_string s) ≡ mask_string s
mask_string_idem s = mask_string-blind _ _ (count-mask_string s)

abbrev pub secret_variable : EnvVar → Bool
secret_variable e = str_eq e.name "PASSWORD" || str_eq e.name "SECRET"

-- The two variables differ at most in the value of a secret, and there not in its length.
pub record Alike (d e : EnvVar) : Type 0 where
  pub same_name : d.name ≡ e.name
  pub same_source : d.value_from ≡ e.value_from
  pub same_length : count d.value ≡ count e.value
  pub same_public : secret_variable d ≡ false → d.value ≡ e.value

pub data AllAlike : List EnvVar → List EnvVar → Type 0 where
  none : AllAlike [] []
  more :
      (d e : EnvVar) (ds es : List EnvVar) → Alike d e → AllAlike ds es → AllAlike (d ∷ ds) (e ∷ es)

mask_env_var-Alike : (d e : EnvVar) → Alike d e → mask_env_var d ≡ mask_env_var e
unfolding mask_env_var
mask_env_var-Alike d e a = elim (Bool-cases (secret_variable d)) [
  | inl b ↦
      let b' : secret_variable e ≡ true = rw (← a.same_name) b in
      rw (b, b') (cc (a.same_name, a.same_source, mask_string-blind _ _ a.same_length))
  | inr b ↦
      let b' : secret_variable e ≡ false = rw (← a.same_name) b in
      rw (b, b') (cc (a.same_name, a.same_source, a.same_public b))
]

mask_env_vars-AllAlike :
    (ds es : List EnvVar) → AllAlike ds es → mask_env_vars ds ≡ mask_env_vars es
unfolding mask_env_vars
mask_env_vars-AllAlike _ _ none = refl
mask_env_vars-AllAlike _ _ (more d e ds es a h) =
    cc (mask_env_var-Alike d e a, mask_env_vars-AllAlike ds es h)

-- MaskSpec hides all of a secret variable but the number of its characters: containers that differ in nothing else of their
-- variables are masked alike.
pub mask_spec-hides :
    (c : Container) (ds es : List EnvVar)
    → AllAlike ds es
    → mask_spec (record c { env = ds }) ≡ mask_spec (record c { env = es })
unfolding mask_spec
mask_spec-hides c ds es h = rw (mask_env_vars-AllAlike ds es h) refl
