-- ===== src/Cs/Tsp/Text.antt =====
-- The comparisons by `strcmp` in host/snia_cs_api/cs_api_nvme_tsp.c.
use nvme_csd.Base.{
  ℕ, ◌≡◌, refl, ap, ==_iff, Bool-cases, List, [], ◌∷◌, ◌++◌, some, true, false, ◌==◌, inl, inr,
}
use nvme_csd.Cs.Tsp.{strcmp_eq}

-- Memory that compares equal with a text starts with the text and a NUL.
pub starts-strcmp_eq :
    (bytes text : List ℕ)
    → strcmp_eq bytes text ≡ some true
    → (rest : List ℕ) × (bytes ≡ text ++ (0 ∷ rest))
unfolding strcmp_eq
starts-strcmp_eq [] text h = absurd (cc)
starts-strcmp_eq (b ∷ bytes) [] h =
    let ends : (b == 0) ≡ true = cc in
    let e : b ≡ 0 = (==_iff b 0).0 ends in (bytes, ap (λ c. c ∷ bytes) e)
starts-strcmp_eq (b ∷ bytes) (c ∷ text) h = elim (Bool-cases (b == c)) [
  | inl same ↦
      let e : b ≡ c = (==_iff b c).0 same in
      let h' : strcmp_eq bytes text ≡ some true = rw same at h in
      let (rest, starts) = starts-strcmp_eq bytes text h' in (rest, cc)
  | inr other ↦ let h' : some false ≡ some true = rw other at h in absurd (cc)
]

pub strcmp_eq-starts : (text rest : List ℕ) → strcmp_eq (text ++ (0 ∷ rest)) text ≡ some true
unfolding strcmp_eq
strcmp_eq-starts [] rest = refl
strcmp_eq-starts (c ∷ text) rest = rw ((==_iff c c).1 refl) (strcmp_eq-starts text rest)
