-- ===== src/Tests/Utils.antt =====
-- The printing of host/snia_cs_api/cs_utils.c, and a query of capabilities.
use nvme_csd.Cs.Types.{CsFunction, has_function}
use nvme_csd.Cs.Types.Capabilities.{Capabilities, capabilities_word}
use nvme_csd.Cs.Query.Offers.{has_function-cs_query_device_capabilities}
use nvme_csd.Base.{
  field, le_bytes, true, false, if◌then◌else◌, ◌==◌, ℕ, ◌≡◌, refl, arith, pos, List, [], ◌∷◌, ◌++◌,
  some, replicate,
}
use nvme_csd.Cs.Sys.{Env, Fills, admin_passthru, block_device}
use nvme_csd.Cs.Types.Layout.{CsxProperties, csx_bytes, IsCsx, name_bytes}
use nvme_csd.Cs.Tsp.{tsp_cs_id_string}
use nvme_csd.Cs.Query.Described.{print_csx_properties-cs_query_device_properties}
use nvme_csd.Cs.Query.Full.{Answered}
use nvme_csd.Cs.Utils.Shows.{csx_shown}
use nvme_csd.Cs.Types.{cs_success}
use nvme_csd.Cs.Sys.{Machine, after}
use nvme_csd.Cs.Tsp.{device_has_cs, strcmp_eq, strcmp_local, passthru, required_size}
use nvme_csd.Cs.Sys.Trace.{Ensures}
use nvme_csd.Cs.Query.{cs_query_device_properties, cs_query_device_capabilities}
use nvme_csd.Cs.Query.Capabilities.{IsAnswered, cs_query_device_capabilities_lem}
use nvme_csd.Cs.Utils.{print_csx_properties}
use nvme_csd.Tests.Cs.{toy_step, toy_step-Fills, start, fit, length-fit}

-- A structure of zeros that counts one CSE, in 120 bytes.
abbrev one_cse : List ℕ
one_cse = replicate 56 0 ++ (1 ∷ replicate 63 0)

abbrev capabilities : List ℕ
capabilities = replicate 8 0

cs_query_device_capabilities_lem_example :
    Ensures
      (IsAnswered toy_step toy_step-Fills (pos 3) capabilities start)
      (cs_query_device_capabilities toy_step (pos 3) (some capabilities) start)
cs_query_device_capabilities_lem_example =
    cs_query_device_capabilities_lem toy_step toy_step-Fills (pos 3) capabilities start
      (omega arith)

-- The properties of a device "d" with one CSE "e".
abbrev properties : CsxProperties
properties = record {
  hw_version = 1;
  sw_version = 2;
  vendor_id = 3;
  device_id = 4;
  friendly_name = 100 ∷ [];
  cfm_min_mb = 5;
  fdm_min_mb = 6;
  flags = record {
    fdm_is_device_managed = true;
    fdm_is_host_visible = true;
    batch_requests_supported = false;
    streams_supported = false;
    reserved = 0;
  };
  cses =
      record {
        hw_version = 7;
        sw_version = 8;
        unique_name = 101 ∷ [];
        num_builtin_functions = 1;
        max_requests_per_batch = 9;
        max_function_parameters = 10;
        max_concurrent_instances = 11;
      }
      ∷ [];
}

properties-IsCsx : IsCsx properties
properties-IsCsx = record {
  hw_version = omega arith;
  sw_version = omega arith;
  vendor_id = omega arith;
  device_id = omega arith;
  friendly_name = record { text = ground arith; short = omega arith };
  cfm_min_mb = omega arith;
  fdm_min_mb = omega arith;
  reserved = omega arith;
  count = omega arith;
  cses = (
    record {
      hw_version = omega arith;
      sw_version = omega arith;
      unique_name = record { text = ground arith; short = omega arith };
      num_builtin_functions = omega arith;
      max_requests_per_batch = omega arith;
      max_function_parameters = omega arith;
      max_concurrent_instances = omega arith;
    },
    tt,
  );
}

-- It tells them, or that it has compute.
abbrev telling : Env (Unit {0})
telling (admin_passthru c) s = (
  record {
    ret = pos 0;
    buffer = fit c.data_len (if c.cdw10 == 0 then tsp_cs_id_string else csx_bytes properties []);
    kind = block_device;
  },
  s,
)
telling call s = (record { ret = pos 3; buffer = []; kind = block_device }, s)

telling-Fills : Fills telling
telling-Fills c s = length-fit c.data_len _

told_bytes : fit 4096 (csx_bytes properties []) ≡ csx_bytes properties (fit 3988 [])
unfolding name_bytes
told_bytes = refl

-- The machine after the device is asked who it is.
abbrev identified : Machine (Unit {0})
identified =
    after telling
      (admin_passthru (record {
        fd = pos 3;
        cdw10 = 0;
        cdw11 = 0;
        cdw12 = 0;
        cdw13 = 0;
        data_len = 4096;
        payload = [];
        timeout_ms = 0;
      }))
      start

telling-Answered : Answered telling 3 200 (replicate 300 9) start identified
unfolding device_has_cs strcmp_eq passthru strcmp_local required_size name_bytes
telling-Answered = record {
  small = omega arith;
  room = omega arith;
  has = refl;
  accepted = refl;
  fits = omega arith;
}

print_csx_properties-cs_query_device_properties_example :
    (memory : List ℕ) × (m' : Machine (Unit {0})) × (cs_query_device_properties telling
        (pos 3)
        (some (pos 200))
        (some (replicate 300 9))
        start
      ≡ some ((cs_success, memory), m'))
    × (print_csx_properties memory ≡ some (csx_shown properties))
print_csx_properties-cs_query_device_properties_example =
    print_csx_properties-cs_query_device_properties telling telling-Fills properties 3 200
      (replicate 300 9) start identified (fit 3988 []) properties-IsCsx (omega arith)
      telling-Answered told_bytes

-- A device with checksums and compression, and custom types.
abbrev kinds : Capabilities
kinds = record { has = λ f. has_function 257 f; custom_type = 5 }

abbrev offering : Env (Unit {0})
offering call s = (
  record {
    ret = pos 0;
    buffer = le_bytes 8 (capabilities_word kinds) ++ replicate 4088 0;
    kind = block_device;
  },
  s,
)

has_function-cs_query_device_capabilities_example :
    (memory : List ℕ) × (m' : Machine (Unit {0})) × (cs_query_device_capabilities offering
        (pos 3)
        (some (replicate 9 1))
        start
      ≡ some ((cs_success, memory), m'))
    × ((f : CsFunction) → has_function (field 0 8 memory) f ≡ kinds.has f)
has_function-cs_query_device_capabilities_example =
    has_function-cs_query_device_capabilities offering 3 (replicate 9 1) start kinds
      (replicate 4088 0) (omega arith) (omega arith) refl refl
