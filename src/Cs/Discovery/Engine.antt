-- ===== src/Cs/Discovery/Engine.antt =====
-- The one compute engine that host/snia_cs_api/cs_api_nvme_tsp.c knows: its name and its handle.
use nvme_csd.Base.{
  ◌↔◌, Option, none, Bool, true, false, ℕ, ◌≤◌, ◌≡◌, refl, arith, pos, List, [], ◌∷◌, ◌++◌, some,
  length, memcpy-fits, not_lt→ltb, blit, length-blit,
}
use nvme_csd.Cs.Types.{cs_success, cs_entity_not_on_device}
use nvme_csd.Cs.Tsp.Text.{starts-strcmp_eq, strcmp_eq-starts}
use nvme_csd.Cs.Tsp.{strcmp_eq}
use nvme_csd.Cs.Discovery.{
  cs_get_cse_from_csx, cs_open_cse, answer_of, place_holder_cse_name, place_holder_cse_handle,
}

-- For a handle that is not negative, at least 14 bytes by `Length`, and as much memory at
-- `CSEName`: the name that `csGetCSEFromCSx` leaves there is one that `csOpenCSE` opens.
pub cs_open_cse-cs_get_cse_from_csx :
    (handle len : ℕ) (memory : List ℕ)
    → 14 ≤ len
    → 14 ≤ length memory
    → (name : List ℕ) × (cs_get_cse_from_csx (pos handle) (some len) (some memory)
        ≡ some (cs_success, name))
      × (length name ≡ length memory)
      × (cs_open_cse name ≡ some (cs_success, some place_holder_cse_handle))
unfolding cs_get_cse_from_csx cs_open_cse strcmp_eq
cs_open_cse-cs_get_cse_from_csx handle len memory h k =
    let text = place_holder_cse_name ++ (0 ∷ []) in
    (
      blit memory 0 text,
      rw (not_lt→ltb len 14 h, memcpy-fits memory 0 text 14 k (omega arith)) refl,
      length-blit memory 0 text (omega arith),
      refl,
    )

opens-answer :
    (same : Option Bool)
    → answer_of same ≡ some (cs_success, some place_holder_cse_handle)
    → same ≡ some true
opens-answer none h = absurd (cc)
opens-answer (some true) h = refl
opens-answer (some false) h = absurd (let bad : cs_entity_not_on_device ≡ cs_success = cc in cc)

-- For any memory, `csOpenCSE` reports success and gives the engine's handle exactly if the memory
-- starts with the name of the one engine and a NUL.
pub cs_open_cse_iff :
    (cse_name : List ℕ)
    → (cs_open_cse cse_name ≡ some (cs_success, some place_holder_cse_handle))
      ↔ ((rest : List ℕ) × (cse_name ≡ place_holder_cse_name ++ (0 ∷ rest)))
unfolding cs_open_cse
cs_open_cse_iff cse_name = (
  λ ok.
      starts-strcmp_eq cse_name place_holder_cse_name
        (opens-answer (strcmp_eq cse_name place_holder_cse_name) ok),
  λ h. rw (h.1, strcmp_eq-starts place_holder_cse_name h.0) refl,
)
