-- ===== src/Cs/Discovery/Calls.antt =====
-- The calls that the discovery of host/snia_cs_api/cs_api_nvme_tsp.c makes.
use nvme_csd.Base.{
  ◌≡◌, refl, ℕ, ℤ, is_negative, List, ◌++◌, [], ◌∷◌, Option, none, some, Bool, true, ◌||◌, length,
  ltb, memcpy, ◌+◌,
}
use nvme_csd.Cs.Sys.{Call, nvme_open, fstat, close, AdminCommand, admin_passthru, Env, lift, sys}
use nvme_csd.Cs.Sys.Keeps.{Keeps, Keeps-pure, Keeps-lift, Keeps-sys, Keeps-bind, Keeps-if}
use nvme_csd.Cs.Types.{
  CsStatus, cs_invalid_length, cs_success, cs_no_such_entity_exists, cs_enxio,
  cs_entity_not_on_device,
}
use nvme_csd.Cs.Tsp.{passthru, copy_out, device_has_cs, tsp_cs_identify}
use nvme_csd.Cs.Discovery.{
  close_with, copy_name, check_device, cs_get_csx_from_path, cs_open_csx, is_no_device,
}

module _ {S : Type 0} (step : Env S) (ok : Call → Bool)
    (opens : (name : List ℕ) → ok (nvme_open name) ≡ true) (looks : (fd : ℤ) → ok (fstat fd) ≡ true)
    (closes : (fd : ℤ) → ok (close fd) ≡ true)
    (asks : (c : AdminCommand) → c.cdw10 ≡ tsp_cs_identify → ok (admin_passthru c) ≡ true) where
  close_with-Keeps : (fd : ℤ) (r : CsStatus × List ℕ) → Keeps ok (close_with step fd r)
  unfolding close_with
  close_with-Keeps fd r = record { at = λ m h. (closes fd, h) }

  device_has_cs-Keeps : (fd : ℤ) → Keeps ok (device_has_cs step fd)
  unfolding device_has_cs passthru
  device_has_cs-Keeps fd = record { at = λ m h. (asks _ refl, h) }

  copy_name-Keeps :
      (fd : ℤ) (name : List ℕ) (len : ℕ) (dev_name : List ℕ)
      → Keeps ok (copy_name step fd name len dev_name)
  unfolding copy_name copy_out
  copy_name-Keeps fd name len dev_name =
      Keeps-if ok (ltb len (length name + 1)) _ _
        (close_with-Keeps fd (cs_invalid_length, dev_name))
        (Keeps-bind ok (copy_out dev_name (name ++ (0 ∷ [])) (length name + 1) cs_success) _
          (Keeps-bind ok (lift (memcpy dev_name 0 (name ++ (0 ∷ [])) (length name + 1))) _
            (Keeps-lift ok (memcpy dev_name 0 (name ++ (0 ∷ [])) (length name + 1)))
            (λ dst. Keeps-pure ok (cs_success, dst)))
          (λ copied. close_with-Keeps fd copied))

  check_device-Keeps :
      (fd : ℤ) (name : List ℕ) (len : ℕ) (dev_name : List ℕ)
      → Keeps ok (check_device step fd name len dev_name)
  unfolding check_device
  check_device-Keeps fd name len dev_name =
      Keeps-bind ok (sys step (fstat fd)) _ (Keeps-sys ok step (fstat fd) (looks fd)) (λ st.
        Keeps-if ok (is_negative st.ret || is_no_device st.kind) _ _
          (close_with-Keeps fd (cs_enxio, dev_name))
          (Keeps-bind ok (device_has_cs step fd) _ (device_has_cs-Keeps fd) (λ has.
            Keeps-if ok has _ _ (copy_name-Keeps fd name len dev_name)
              (close_with-Keeps fd (cs_entity_not_on_device, dev_name)))))

  pub cs_get_csx_from_path-Keeps :
      (basename : List ℕ → List ℕ) (path : Option (List ℕ)) (len : ℕ) (dev_name : List ℕ)
      → Keeps ok (cs_get_csx_from_path step basename path (some len) (some dev_name))
  unfolding cs_get_csx_from_path
  cs_get_csx_from_path-Keeps basename none len dev_name = record { at = λ m h. h }
  cs_get_csx_from_path-Keeps basename (some path) len dev_name =
      Keeps-bind ok (sys step (nvme_open (basename path))) _
        (Keeps-sys ok step (nvme_open (basename path)) (opens (basename path)))
        (λ opened.
          Keeps-if ok (is_negative opened.ret) _ _
            (Keeps-pure ok (cs_no_such_entity_exists, dev_name))
            (check_device-Keeps opened.ret (basename path) len dev_name))

  pub cs_open_csx-Keeps : (name : List ℕ) → Keeps ok (cs_open_csx step (some name) true)
  unfolding cs_open_csx
  cs_open_csx-Keeps name =
      Keeps-bind ok (sys step (nvme_open name)) _ (Keeps-sys ok step (nvme_open name) (opens name))
        (λ opened.
          Keeps-if ok (is_negative opened.ret) _ _ (Keeps-pure ok (cs_no_such_entity_exists, none))
            (Keeps-pure ok (cs_success, some opened.ret)))
