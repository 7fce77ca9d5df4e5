-- ===== src/Tests/Keys.antt =====
-- The theorem on the text of extended keys at a concrete key.
use emerald_rs.Prelude.{◌≡◌, refl, replicate, ok, some, arith}
use emerald_rs.Prelude.Bytes.{be_value, be_bytes}
use emerald_rs.Chains.{Network}
use emerald_rs.Structs.{XPub, p2wpkh}
use emerald_rs.Bitcoin.Text.{TextLib, xpub_from_str, xpub_to_string}
use emerald_rs.Bitcoin.Text.RoundTrip.{IsSerializable, xpub_from_str-xpub_to_string}
use emerald_rs.Tests.Instances.{replicate-IsByte}

-- The text of some bytes is those bytes.
abbrev text_lib : TextLib
text_lib = record {
  from_check = λ text. some text;
  check_encode_slice = λ bs. bs;
  public_key_from_slice = λ key. some key;
  read_u32 = be_value;
  write_u32 = be_bytes 4;
  from_check-check_encode_slice = λ bs h. refl;
  read_u32_lem = λ bs h. refl;
  write_u32_lem = λ x h. refl;
}

abbrev account_key : XPub
account_key = record {
  value = record {
    network = Network.bitcoin;
    depth = 3;
    parent_fingerprint = replicate 4 0;
    child_number = 2147483648;
    chain_code = replicate 32 0;
    public_key = replicate 33 0;
  };
  address_type = p2wpkh;
}

account_key-IsSerializable : IsSerializable account_key
account_key-IsSerializable = record {
  depth_byte = omega arith;
  parent_length = refl;
  parent_bytes = replicate-IsByte 4;
  child_small = omega arith;
  chain_length = refl;
  chain_bytes = replicate-IsByte 32;
  key_length = refl;
  key_bytes = replicate-IsByte 33;
}

xpub_from_str-xpub_to_string_example :
    xpub_from_str text_lib (xpub_to_string text_lib account_key) ≡ ok account_key
xpub_from_str-xpub_to_string_example =
    xpub_from_str-xpub_to_string text_lib account_key (λ h. cc) (λ h. cc) account_key-IsSerializable
      refl
