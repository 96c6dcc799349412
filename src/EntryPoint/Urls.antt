-- ===== src/EntryPoint/Urls.antt =====
-- The URLs of Kodes, and the routes for them.
use text.Mathlib.TextLemmas.{
  append_cancel_left, append_cancel_right, length-append, length-cons, length-nil,
}
use Prim.Native.String.{count}
use kode_operator.Prelude.{
  String, ◌<>◌, str_eq, ◌==◌, false, List, [], ◌∷◌, map, ◌≡◌, ◌≢◌, refl, sym, subst, str_eq_iff,
  ◌∙◌, ap, arith, inl, inr, Bool-cases, true, ◌||◌,
}
use kode_operator.Go.{Result, ok, err}
use kode_operator.Api.{Kode}
use kode_operator.Api.Names.{KodeAddress, generate_kode_url}
use kode_operator.Gateway.{HttpRoute, HttpRouteRule, HttpPathMatch}
use kode_operator.KodeObject.{get_port}
use kode_operator.EntryPoint.Config.{EntryPointResourceConfig}
use kode_operator.EntryPoint.Routes.{
  construct_http_route, construct_http_route_rules, construct_backend_rule,
}

-- A URL as the text that its parts make.
abbrev pub Joined : String → String → KodeAddress → Type 0
Joined name protocol a = (a.hostname ≡ name) × (a.url ≡ protocol <> "://" <> a.domain <> a.path)

abbrev pub Generated : String → String → String → Result KodeAddress → Type 0
Generated routing_type name protocol (ok a) =
    Joined name protocol a
    × ((str_eq routing_type "subdomain" || str_eq routing_type "path") ≡ true)
Generated routing_type name protocol (err e) =
    (str_eq routing_type "subdomain" || str_eq routing_type "path") ≡ false

-- GenerateKodeUrlForEntryPoint succeeds just for the routing types "subdomain" and "path". The host name is then the name
-- that it was given, and the URL is the protocol, "://", the domain and the path, in this order.
generate_kode_url-Generated :
    (routing_type domain name protocol : String)
    → Generated routing_type name protocol (generate_kode_url routing_type domain name protocol)
unfolding generate_kode_url
generate_kode_url-Generated routing_type domain name protocol =
    elim (Bool-cases (str_eq routing_type "subdomain")) [
      | inl b ↦ rw (b, b) ((refl, refl), refl)
      | inr b ↦ elim (Bool-cases (str_eq routing_type "path")) [
        | inl d ↦ rw (b, d, b, d) ((refl, refl), refl)
        | inr d ↦ rw (b, d, b, d) refl
      ]
    ]

pub generate_kode_url-full :
    (routing_type domain name protocol : String) (a : KodeAddress)
    → generate_kode_url routing_type domain name protocol ≡ ok a
    → str_eq a.url "" ≡ false
generate_kode_url-full routing_type domain name protocol a e = elim (Bool-cases (str_eq a.url "")) [
  | inl b ↦
      let g =
        subst (Generated routing_type name protocol) e
          (generate_kode_url-Generated routing_type domain name protocol) in
      let u : protocol <> "://" <> a.domain <> a.path ≡ "" =
        sym (g.0.1) ∙ (str_eq_iff a.url "").0 b in
      absurd (
        omega (
          arith,
          ap count u,
          length-append protocol ("://" <> a.domain <> a.path),
          length-append "://" (a.domain <> a.path),
          three,
          length-nil,
        ))
  | inr b ↦ b
]
  where
    three : count "://" ≡ 3
    three = rw (length-cons, length-cons, length-cons, length-nil) refl

domain_of : Result KodeAddress → String
domain_of (ok a) = a.domain
domain_of (err e) = ""

url_of : Result KodeAddress → String
url_of (ok a) = a.url
url_of (err e) = ""

-- With routing by subdomain, two Kodes of different names get different domains and different URLs from an
-- EntryPoint.
pub subdomain-separates :
    (domain protocol j k : String) (a b : KodeAddress)
    → j ≢ k
    → generate_kode_url "subdomain" domain j protocol ≡ ok a
    → generate_kode_url "subdomain" domain k protocol ≡ ok b
    → (a.domain ≢ b.domain) × (a.url ≢ b.url)
unfolding generate_kode_url str_eq domain_of url_of
subdomain-separates domain protocol j k a b differ ea eb = (
  λ e. differ (named (ap domain_of ea ∙ e ∙ sym (ap domain_of eb))),
  λ e. differ (
      named (
        append_cancel_right (j <> "." <> domain) (k <> "." <> domain) "/" (
          append_cancel_left "://" _ _
            (append_cancel_left protocol _ _ (ap url_of ea ∙ e ∙ sym (ap url_of eb)))))),
)
  where
    named : (j <> "." <> domain ≡ k <> "." <> domain) → j ≡ k
    named e = append_cancel_right j k ("." <> domain) e

abbrev pub matches_of : HttpRoute → List (List HttpPathMatch)
matches_of r = map (λ (u : HttpRouteRule). u.matches) r.rules

constructed-matches :
    (c : EntryPointResourceConfig) (k : Kode) (domain : String) (r : HttpRoute)
    → construct_http_route c k false domain ≡ ok r
    → (r.hostnames ≡ domain ∷ [])
      × (matches_of r ≡ (record { type = "PathPrefix"; value = "/" } ∷ []) ∷ [])
unfolding construct_http_route construct_http_route_rules construct_backend_rule
constructed-matches c k domain r e = elim (Bool-cases (get_port k == 0)) [
  | inl b ↦ grind arith
  | inr b ↦ (grind arith, grind arith)
]

-- Routing by path: the routes of all the Kodes of an EntryPoint have the same host name and match the same paths, so they do
-- not tell the Kodes apart.
pub path-overlaps :
    (c : EntryPointResourceConfig) (j k : Kode) (domain : String) (a b : KodeAddress)
    (q r : HttpRoute)
    → generate_kode_url "path" domain j.name c.protocol ≡ ok a
    → generate_kode_url "path" domain k.name c.protocol ≡ ok b
    → construct_http_route c j false a.domain ≡ ok q
    → construct_http_route c k false b.domain ≡ ok r
    → (q.hostnames ≡ r.hostnames) × (matches_of q ≡ matches_of r)
unfolding generate_kode_url str_eq domain_of
path-overlaps c j k domain a b q r ea eb eq er =
    let q' = constructed-matches c j a.domain q eq in
    let r' = constructed-matches c k b.domain r er in
    let e : a.domain ≡ b.domain = sym (ap domain_of ea) ∙ ap domain_of eb in
    (cc (q'.0, r'.0, e), q'.1 ∙ sym r'.1)
