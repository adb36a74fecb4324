-- ===== src/Update/Check/Choice.antt =====
-- Which release src/update/check.rs chooses, and that no update is passed over.
use anemone_rs.Base.{
  ◌≤◌, ◌≡◌, refl, ap, subst, sym, ◌∙◌, some_injective, ◌⊎◌, inl, inr, false, none, some,
  Option-cases, Sum-cases, List, [], ◌∷◌, arith,
}
use anemone_rs.Update.Version.{Version, is_prerelease, from_str}
use anemone_rs.Update.Version.Order.{IsBounded, rank, cmp-compare-rank, is_prerelease-pre}
use anemone_rs.Update.Version.Accepted.{from_str-IsBounded}
use anemone_rs.Update.Check.{Release, eligible, better, max_from, candidate}

-- `c` is the release with the version of its tag; neither marks it as a draft or a prerelease.
pub record IsStable (r : Release) (c : Release × Version) : Type 0 where
  pub same : c.0 ≡ r
  pub no_draft : r.draft ≡ false
  pub no_prerelease : r.prerelease ≡ false
  pub tagged : from_str r.tag_name ≡ inr c.1
  pub no_pre : c.1.pre ≡ none

-- `c` is such a release of the list.
pub data Offered (c : Release × Version) : List Release → Type 0 where
  here : {r : Release} {rs : List Release} → IsStable r c → Offered c (r ∷ rs)
  there : {r : Release} {rs : List Release} → Offered c rs → Offered c (r ∷ rs)

-- No release that is offered has a higher version than `best`.
unfoldable pub Highest : Release × Version → List Release → Type 0
Highest best rs = (c : Release × Version) → Offered c rs → rank c.1 ≤ rank best.1

eligible-IsBounded :
    (r : Release) (c : Release × Version) → eligible r ≡ some c → IsBounded c.1 × (c.1.pre ≡ none)
unfolding eligible
eligible-IsBounded r c h = elim (Sum-cases (from_str r.tag_name)) [
  | inl e ↦ ground (arith, e)
  | inr e ↦
      let (v, e') = e in
      let h' : (c.1 ≡ v) × (is_prerelease v ≡ false) = ground (arith, e', h) in
      rw h'.0 (from_str-IsBounded r.tag_name v e', is_prerelease-pre v h'.1)
]

eligible-IsStable : (r : Release) (c : Release × Version) → eligible r ≡ some c → IsStable r c
unfolding eligible
eligible-IsStable r c h = elim (Sum-cases (from_str r.tag_name)) [
  | inl (x, e) ↦ ground (arith, e, h)
  | inr (v, e) ↦
      let h' : (some (r, v) ≡ some c)
          × (r.draft ≡ false)
          × (r.prerelease ≡ false)
          × (is_prerelease v ≡ false) =
        ground (arith, e, h) in
      let same : (r, v) ≡ c = some_injective h'.0 in
      record {
        same = sym (ap (λ x. x.0) same);
        no_draft = h'.1;
        no_prerelease = h'.2;
        tagged = e ∙ ap (λ x. inr x.1) same;
        no_pre = ap (λ x. x.1.pre) (sym same) ∙ is_prerelease-pre v h'.3;
      }
]

IsStable-eligible : (r : Release) (c : Release × Version) → IsStable r c → eligible r ≡ some c
unfolding eligible is_prerelease
IsStable-eligible r c i =
    let stable : is_prerelease c.1 ≡ false = rw i.no_pre refl in
    rw (eligible, i.no_draft, i.no_prerelease, i.tagged, stable)
      (ap (λ x. some (x, c.1)) (sym i.same))

better-rank :
    (b c : Release × Version)
    → IsBounded b.1
    → IsBounded c.1
    → (rank b.1 ≤ rank (better b c).1) × (rank c.1 ≤ rank (better b c).1)
unfolding better
better-rank b c p q = ground (arith, cmp-compare-rank b.1 c.1 p q)

better-cases : (b c : Release × Version) → (better b c ≡ b) ⊎ (better b c ≡ c)
unfolding better
better-cases b c = ground arith

-- What the maximum of `b` and the rest of a list is.
record IsMax (b : Release × Version) (rs : List Release) (m : Release × Version) : Type 0 where
  above : rank b.1 ≤ rank m.1
  highest : Highest m rs
  bounded : IsBounded m.1
  from : (m ≡ b) ⊎ Offered m rs

Highest-nil : (m : Release × Version) → Highest m []
unfolding Highest
Highest-nil m c o = elim o [ ]

Highest-cons :
    (m : Release × Version) (r : Release) (rs : List Release)
    → ((c : Release × Version) → eligible r ≡ some c → rank c.1 ≤ rank m.1)
    → Highest m rs
    → Highest m (r ∷ rs)
unfolding Highest
Highest-cons m r rs f h c (Offered.here i) = f c (IsStable-eligible r c i)
Highest-cons m r rs f h c (Offered.there o) = h c o

IsMax-skip :
    (b : Release × Version) (r : Release) (rs : List Release) (m : Release × Version)
    → eligible r ≡ none
    → IsMax b rs m
    → IsMax b (r ∷ rs) m
IsMax-skip b r rs m e i = record {
  above = i.above;
  highest = Highest-cons m r rs (λ c e'. ground (arith, e, e')) i.highest;
  bounded = i.bounded;
  from = elim i.from [ inl f ↦ inl f | inr o ↦ inr (Offered.there o) ];
}

IsMax-better :
    (b c : Release × Version) (r : Release) (rs : List Release) (m : Release × Version)
    → IsBounded b.1
    → eligible r ≡ some c
    → IsMax (better b c) rs m
    → IsMax b (r ∷ rs) m
IsMax-better b c r rs m p e i =
    let ranks = better-rank b c p (eligible-IsBounded r c e).0 in
    record {
      above = omega (arith, ranks.0, i.above);
      highest = Highest-cons m r rs (λ c' e'. ground (arith, ranks.1, i.above, e, e')) i.highest;
      bounded = i.bounded;
      from = elim i.from [
        | inr o ↦ inr (Offered.there o)
        | inl f ↦ elim (better-cases b c) [
          | inl g ↦ inl (f ∙ g)
          | inr g ↦ inr (Offered.here (eligible-IsStable r m (e ∙ ap some (sym (f ∙ g)))))
        ]
      ];
    }

better-IsBounded :
    (b c : Release × Version) → IsBounded b.1 → IsBounded c.1 → IsBounded (better b c).1
better-IsBounded b c p q = elim (better-cases b c) [ inl g ↦ rw g p | inr g ↦ rw g q ]

max_from-IsMax :
    (b : Release × Version) (rs : List Release) → IsBounded b.1 → IsMax b rs (max_from b rs)
unfolding max_from
max_from-IsMax b [] p = record {
  above = omega arith;
  highest = Highest-nil b;
  bounded = p;
  from = inl refl;
}
max_from-IsMax b (r ∷ rs) p = elim (Option-cases (eligible r)) [
  | inl e ↦ rw e (IsMax-skip b r rs (max_from b rs) e (max_from-IsMax b rs p))
  | inr (c, e) ↦ rw e (
      IsMax-better b c r rs (max_from (better b c) rs) p e
        (max_from-IsMax (better b c) rs (better-IsBounded b c p (eligible-IsBounded r c e).0)))
]

max_from-Highest :
    (b : Release × Version) (r : Release) (rs : List Release)
    → eligible r ≡ some b
    → Offered (max_from b rs) (r ∷ rs)
      × Highest (max_from b rs) (r ∷ rs)
      × IsBounded (max_from b rs).1
max_from-Highest b r rs e =
    let i = max_from-IsMax b rs (eligible-IsBounded r b e).0 in
    let offered : Offered (max_from b rs) (r ∷ rs) = elim i.from [
      | inl f ↦ Offered.here (eligible-IsStable r (max_from b rs) (e ∙ ap some (sym f)))
      | inr o ↦ Offered.there o
    ] in
    (
      offered,
      Highest-cons (max_from b rs) r rs (λ c e'. ground (arith, i.above, e, e')) i.highest,
      i.bounded,
    )

-- `candidate` finds a release that is offered, with the highest version of those.
pub candidate-Highest :
    (rs : List Release) (c : Release × Version)
    → candidate rs ≡ some c
    → Offered c rs × Highest c rs × IsBounded c.1
unfolding candidate
candidate-Highest [] c h = ground arith
candidate-Highest (r ∷ rs) c h = elim (Option-cases (eligible r)) [
  | inl e ↦
      let (o, i, p) = candidate-Highest rs c (ground (arith, e, h)) in
      (Offered.there o, Highest-cons c r rs (λ c' e'. ground (arith, e, e')) i, p)
  | inr (b, e) ↦
      let chosen : max_from b rs ≡ c = ground (arith, e, h) in
      subst (λ m. Offered m (r ∷ rs) × Highest m (r ∷ rs) × IsBounded m.1) chosen
        (max_from-Highest b r rs e)
]

pub candidate-none :
    (rs : List Release) (c : Release × Version) → candidate rs ≡ none → ¬ Offered c rs
unfolding candidate
candidate-none [] c h o = elim o [ ]
candidate-none (r ∷ rs) c h (Offered.here i) = ground (arith, h, IsStable-eligible r c i)
candidate-none (r ∷ rs) c h (Offered.there o) = candidate-none rs c (ground (arith, h)) o

pub from_Offered :
    (rs : List Release) (c : Release × Version) → Offered c rs → IsBounded c.1 × (c.1.pre ≡ none)
from_Offered [] c o = elim o [ ]
from_Offered (r ∷ rs) c (Offered.here i) = eligible-IsBounded r c (IsStable-eligible r c i)
from_Offered (r ∷ rs) c (Offered.there o) = from_Offered rs c o
