-- ===== src/Template/Keys.antt =====
-- The keys of the template manager's cache.
use Prim.Native.Char.{Char, code}
use text.Mathlib.TextLemmas.{
  append_cancel_left, nil-append, cons-append, head-eq_of_cons-eq, tail-eq_of_cons-eq,
}
use kode_operator.Prelude.{
  String, ◌<>◌, Bool, true, not, ◌&&◌, ◌==◌, ◌≡◌, refl, false≢true, subst, get_or, ap, sym, ◌∙◌,
  ◌≢◌, arith,
}
use kode_operator.Api.{CrossNamespaceObjectReference}
use kode_operator.Template.{get_cache_key}

-- No character of the text is a slash, as in the names of the API server.
abbrev pub slash_free : String → Bool
slash_free String.[] = true
slash_free (String.◌∷◌ c s) = not (code c == b'/') && slash_free s

-- A text before a slash does not begin with one.
head-ne-slash : (c : Char) (s : String) → slash_free (String.◌∷◌ c s) ≡ true → c ≢ "/"
head-ne-slash c s h e = false≢true (subst (λ d. slash_free (String.◌∷◌ d s) ≡ true) e h)

begins : (x : String) → String.◌∷◌ "/" x ≡ "" <> "/" <> x
begins x =
    sym (nil-append ("/" <> x) ∙ cons-append "/" "" x ∙ ap (λ s. String.◌∷◌ "/" s) (nil-append x))

-- Two texts that agree up to their first slashes agree before it and after it.
split :
    (a b x y : String)
    → slash_free a ≡ true
    → slash_free b ≡ true
    → a <> "/" <> x ≡ b <> "/" <> y
    → (a ≡ b) × (x ≡ y)
split String.[] String.[] x y ha hb e =
    (refl, append_cancel_left "/" x y (sym (nil-append _) ∙ e ∙ nil-append _))
split String.[] (String.◌∷◌ d b) x y ha hb e =
    absurd (head-ne-slash d b hb (sym (head-eq_of_cons-eq (begins x ∙ e ∙ cons-append d b _))))
split (String.◌∷◌ c a) String.[] x y ha hb e =
    absurd
      (head-ne-slash c a ha (head-eq_of_cons-eq (sym (cons-append c a _) ∙ e ∙ sym (begins y))))
split (String.◌∷◌ c a) (String.◌∷◌ d b) x y ha hb e =
    let same : String.◌∷◌ c (a <> "/" <> x) ≡ String.◌∷◌ d (b <> "/" <> y) =
      sym (cons-append c a _) ∙ e ∙ cons-append d b _ in
    let (p, q) = split a b x y (ground arith) (ground arith) (tail-eq_of_cons-eq same) in
    (cc (p, head-eq_of_cons-eq same), q)

-- The parts of a reference that are in its key hold no slash. A namespace that is left out counts as the empty one.
pub record SlashFree (ref : CrossNamespaceObjectReference) : Type 0 where
  pub kind : slash_free ref.kind ≡ true
  pub namespace : slash_free (get_or ref.namespace "") ≡ true

-- Two references have the same key just if they agree in the kind, the namespace and the name.
pub get_cache_key-injective :
    (a b : CrossNamespaceObjectReference)
    → SlashFree a
    → SlashFree b
    → get_cache_key a ≡ get_cache_key b
    → (a.kind ≡ b.kind) × (get_or a.namespace "" ≡ get_or b.namespace "") × (a.name ≡ b.name)
unfolding get_cache_key
get_cache_key-injective a b ha hb e =
    let (k, rest) = split a.kind b.kind _ _ ha.kind hb.kind e in
    let (n, m) = split _ _ a.name b.name ha.namespace hb.namespace rest in (k, n, m)
