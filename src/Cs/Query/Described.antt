-- ===== src/Cs/Query/Described.antt =====
-- What a device says of itself goes through `csQueryDeviceProperties` and `printCSxProperties` of
-- host/snia_cs_api unchanged.
use nvme_csd.Base.{
  ℕ, ◌+◌, ◌-◌, ◌*◌, ◌≤◌, ◌≡◌, refl, sym, ap, ◌∙◌, arith, pos, List, [], ◌++◌, some, length, take,
  drop, blit, take-append_add, append_assoc,
}
use nvme_csd.Cs.Sys.{Machine, Env, Fills, admin_passthru}
use nvme_csd.Cs.Types.{cs_success, num_cses}
use nvme_csd.Cs.Types.Layout.{
  CsxProperties, csx_bytes, csx_tail, IsCsx, field_at, length-csx_bytes, csx_bytes-append,
}
use nvme_csd.Cs.Tsp.{required_size}
use nvme_csd.Cs.Tsp.Properties.{properties_command}
use nvme_csd.Cs.Sys.{after}
use nvme_csd.Cs.Query.Full.{Answered, told, copied, query_full}
use nvme_csd.Cs.Query.{cs_query_device_properties}
use nvme_csd.Cs.Utils.{print_csx_properties}
use nvme_csd.Cs.Utils.Shows.{csx_shown, drop-tail, print_csx_properties-csx_bytes}

num_cses-csx_bytes :
    (p : CsxProperties) (rest : List ℕ) → IsCsx p → num_cses (csx_bytes p rest) ≡ length p.cses
num_cses-csx_bytes p rest h =
    field_at 40 16 56 2 (length p.cses) (csx_bytes p rest) (csx_tail p rest)
      (drop-tail (csx_bytes p rest) p rest h refl) (omega arith) (omega (arith, h.count))

required_size_room : (n : ℕ) → n ≤ 80 → 58 + 50 * n ≤ required_size n
unfolding required_size
required_size_room n h = ground arith

-- A copy that covers the structure starts with it.
blit-csx_bytes :
    (p : CsxProperties) (props rest : List ℕ) (n : ℕ)
    → IsCsx p
    → 58 + 50 * length p.cses ≤ n
    → (behind : List ℕ) × (blit props 0 (take n (csx_bytes p rest)) ≡ csx_bytes p behind)
blit-csx_bytes p props rest n h room =
    let size : length (csx_bytes p []) ≡ 58 + 50 * length p.cses =
      omega (arith, length-csx_bytes p [] h) in
    let k : ℕ = n - (58 + 50 * length p.cses) in
    let cut : take n (csx_bytes p rest) ≡ csx_bytes p [] ++ take k rest =
      ap (take n) (csx_bytes-append p [] rest)
      ∙ ap (λ i. take i (csx_bytes p [] ++ rest)) (omega arith)
      ∙ take-append_add (58 + 50 * length p.cses) k (csx_bytes p []) rest size in
    let more = drop (0 + length (take n (csx_bytes p rest))) props in
    (
      take k rest ++ more,
      ap (λ l. l ++ more) cut
          ∙ append_assoc (csx_bytes p []) (take k rest) more
          ∙ sym (csx_bytes-append p [] (take k rest ++ more)),
    )

-- For every device that fills 4096 bytes, has compute and accepts to be asked for its properties, which
-- are `p`, with at most 80 CSEs, numbers that fit into their fields and names that fit with their NUL:
-- a query with room for what the device has to copy succeeds, and what it leaves prints every value of
-- `p`, of every CSE in its order.
pub print_csx_properties-cs_query_device_properties :
    {S : Type 0} (step : Env S) (fills : Fills step) (p : CsxProperties) (d len : ℕ)
    (props : List ℕ) (m m₁ : Machine S) (rest : List ℕ)
    → IsCsx p
    → length p.cses ≤ 80
    → Answered step d len props m m₁
    → told step d m₁ ≡ csx_bytes p rest
    → (memory : List ℕ) × (m' : Machine S) × (cs_query_device_properties step
          (pos d)
          (some (pos len))
          (some props)
          m
        ≡ some ((cs_success, memory), m'))
      × (print_csx_properties memory ≡ some (csx_shown p))
print_csx_properties-cs_query_device_properties step fills p d len props m m₁ rest valid few o
      says =
    let counted = num_cses-csx_bytes p rest valid in
    let (behind, same) =
      blit-csx_bytes p props rest (required_size (length p.cses)) valid
        (required_size_room (length p.cses) few) in
    (
      copied step d props m₁,
      after step (admin_passthru (properties_command (pos d))) m₁,
      query_full step fills d len props m m₁ o,
      rw (says, counted, same) (print_csx_properties-csx_bytes p behind valid),
    )
