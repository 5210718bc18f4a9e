-- ===== src/Json/Toy/Parser/Documented.antt =====
-- The instance with a parser has the laws that the code relies on.
use wasmagent_proxy.Base.{Bytes}
use wasmagent_proxy.Json.Toy.Laws.{
  encoded-IsStandard, byte_len-base64_encode, decode-base64_encode, length-sign, verify-sign,
}
use wasmagent_proxy.Json.Toy.Parser.{parsing}
use wasmagent_proxy.Json.Toy.Parser.Law.{parsing-Parses}
use wasmagent_proxy.Dsse.Verify.Signed.{Documented}

pub parsing-Documented : (key : Bytes) → Documented parsing key key
parsing-Documented key = record {
  decodes = decode-base64_encode;
  standard = encoded-IsStandard;
  padded = byte_len-base64_encode;
  sized = length-sign key;
  verifies = verify-sign key;
  parses = parsing-Parses;
}
