-- ===== src/Dsse/Pae.antt =====
-- crates/aep-core/src/dsse.rs: the pre-authentication encoding that a signature covers.
pub mod Injective
use wasmagent_proxy.Base.{◌++◌, Text, Bytes, codes, as_bytes, byte_len, decimal, length}

abbrev pub in_toto_payload_type : Text
in_toto_payload_type = codes "application/vnd.in-toto+json"

-- The text is ASCII up to the payload type, whose bytes stand as they are.
unfoldable pub pae_encode : Text → Bytes → Bytes
pae_encode payload_type payload =
    codes "DSSEv1 "
    ++ (as_bytes (decimal (byte_len payload_type))
        ++ (codes " "
            ++ (as_bytes payload_type
                ++ (codes " " ++ (as_bytes (decimal (length payload)) ++ (codes " " ++ payload))))))
