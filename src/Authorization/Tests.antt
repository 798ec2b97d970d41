-- ===== src/Authorization/Tests.antt =====
-- An authorization that is accepted, and the theorem at it.
use enclave_developer.Authorization.{Client, Config, PaymentAuthorization, validate_authorization}
use enclave_developer.Authorization.Accepted.{IsAuthorized, validate-IsAuthorized}
use enclave_developer.Prelude.{true, ◌≡◌, ok, ◌↔◌}
use enclave_developer.Prelude.Text.{codes}

abbrev client : Client
client = record {
  is_address = λ s. true;
  nonce_of = λ s. s;
  verify_typed_data = λ config m from signature. true;
}

abbrev config : Config
config = record {
  usdc_name = codes "USDC";
  usdc_version = codes "2";
  chain_id = 5042;
  usdc_address = codes "0xc";
  usage_meter = codes "0xd";
}

abbrev request : PaymentAuthorization
request = record {
  from = codes "0xa";
  valid_after = codes "10";
  valid_before = codes "20";
  signature =
      codes
        "0x111111111111111111111111111111111111111111111111111111111111111111111111111111111111111111111111111111111111111111111111111111111b";
}

validate-IsAuthorized_example :
    (validate_authorization client config 15 (codes "p") 7 request ≡ ok tt)
    ↔ IsAuthorized client config 15 (codes "p") 7 request
validate-IsAuthorized_example = validate-IsAuthorized client config 15 (codes "p") 7 request
