-- ===== src/Update/Check/Trust.antt =====
-- What an update offered by src/update/check.rs comes from.
use anemone_rs.Base.{
  ◌≡◌, sym, subst, inl, inr, true, some, Option-cases, Sum-cases, Bool-cases, List, [], ◌∷◌, arith,
  Text, text_eq, text_eq→eq,
}
use anemone_rs.Update.Check.{
  UrlLibrary, allowed_hosts, https, contains, ensure_trusted_url, check_url,
}

-- `host` is one of `hosts`.
pub data IsOneOf (host : Text) : List Text → Type 0 where
  first : {hs : List Text} → IsOneOf host (host ∷ hs)
  later : {h : Text} {hs : List Text} → IsOneOf host hs → IsOneOf host (h ∷ hs)

-- An address that parses to one under https, on a host of the program's list.
pub record IsTrusted (lib : UrlLibrary) (address : Text) : Type 0 where
  pub url : lib.Url
  pub host : Text
  pub parsed : lib.parse address ≡ inr url
  pub secure : lib.scheme url ≡ https
  pub at_host : lib.host_str url ≡ some host
  pub allowed : IsOneOf host allowed_hosts

contains-IsOneOf : (hs : List Text) (host : Text) → contains hs host ≡ true → IsOneOf host hs
unfolding contains
contains-IsOneOf [] host h = ground arith
contains-IsOneOf (x ∷ hs) host h = elim (Bool-cases (text_eq x host)) [
  | inl e ↦ subst (λ y. IsOneOf host (y ∷ hs)) (sym (text_eq→eq x host e)) IsOneOf.first
  | inr e ↦ IsOneOf.later (contains-IsOneOf hs host (ground (arith, e, h)))
]

pub check_url-IsTrusted :
    (lib : UrlLibrary) (address : Text) (u : Unit {0})
    → check_url lib address ≡ inr u
    → IsTrusted lib address
unfolding check_url ensure_trusted_url
check_url-IsTrusted lib address u h = elim (Sum-cases (lib.parse address)) [
  | inl (x, e) ↦ ground (arith, e, h)
  | inr (url, e) ↦ elim (Bool-cases (text_eq (lib.scheme url) https)) [
    | inr f ↦ ground (arith, e, f, h)
    | inl f ↦ elim (Option-cases (lib.host_str url)) [
      | inl g ↦ ground (arith, e, f, g, h)
      | inr (host, g) ↦ record {
        url = url;
        host = host;
        parsed = e;
        secure = text_eq→eq (lib.scheme url) https f;
        at_host = g;
        allowed = contains-IsOneOf allowed_hosts host (ground (arith, e, f, g, h));
      }
    ]
  ]
]
