-- ===== src/Dsse/Verify/Signed.antt =====
-- crates/aep-core/src/dsse.rs: signing, writing the statement, reading it and verifying, with no
-- condition but on the record and on the crates the code calls.
use wasmagent_proxy.Base.{◌%◌, ◌≡◌, All, Text, Bytes, byte_len, length, ok}
use wasmagent_proxy.Json.{Crates}
use wasmagent_proxy.Evidence.{AepRecord}
use wasmagent_proxy.Dsse.Sign.{sign_record_dsse}
use wasmagent_proxy.Dsse.Sign.Statement.{Parses, IsParsed, from_slice-statement}
use wasmagent_proxy.Dsse.Verify.{verify_record_dsse}
use wasmagent_proxy.Dsse.Verify.RoundTrip.{IsStandard, signed_verifies}

-- What the crates document: the standard engine of base64, the signatures of ed25519-dalek for a
-- pair of keys, and the parser of serde_json.
pub record Documented (x : Crates) (key verifying_key : Bytes) : Type 0 where
  pub decodes : (b : Bytes) → x.base64_decode (x.base64_encode b) ≡ ok b
  pub standard : (b : Bytes) → All IsStandard (x.base64_encode b)
  pub padded : (b : Bytes) → byte_len (x.base64_encode b) % 4 ≡ 0
  pub sized : (m : Bytes) → length (x.sign key m) ≡ 64
  pub verifies : (m : Bytes) → x.verify verifying_key m (x.sign key m) ≡ ok tt
  pub parses : Parses x

-- A record that is signed verifies. The conditions on the crates are that base64 decodes what it
-- encodes, and encodes to a text of the standard alphabet whose length is a multiple of 4, that the
-- signatures of the key have 64 bytes and the verifying key accepts them, and that serde_json reads
-- each JSON text of a value within its limits as that value, whatever the order of the members. The
-- conditions on the record are that the extra fields at each depth are in the order of their keys,
-- without `Null`, and that its JSON value has at most 126 levels, integers of 64 bits and no
-- floating-point number.
pub signed_record_verifies :
    (x : Crates) (r : AepRecord) (key verifying_key : Bytes) (key_id : Text)
    → Documented x key verifying_key
    → IsParsed r
    → (sign_record_dsse x r key key_id).1 ≡ ok tt
    → verify_record_dsse x (sign_record_dsse x r key key_id).0 verifying_key ≡ ok tt
signed_record_verifies x r key vk key_id d p signed =
    signed_verifies x r key vk key_id d.decodes d.standard d.padded d.sized d.verifies
      (from_slice-statement x r d.parses p) signed
