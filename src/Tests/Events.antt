-- ===== src/Tests/Events.antt =====
-- A record of sshd through the extraction, the normalizer and the validator.
use worm.Base.{
  Bool, true, false, [], ◌∷◌, ◌++◌, ◌≡◌, ◌≢◌, refl, none, some, Bytes, codes, str_eq, str_eq_iff,
  pos, arith, trim_prefix, has_prefix,
}
use worm.Library.{Library}
use worm.Model.{RawEvent, DecodedRecord, accepted}
use worm.Model.Value.{end, field, str}
use worm.Packs.Lookup.{split_dots}
use worm.Packs.Match.{FieldRule, ParserPack}
use worm.Packs.Extract.{Conversions, extract_and_convert}
use worm.Packs.Extract.Rules.{AreKeys, IsExtraction, extract_and_convert-IsExtraction}
use worm.Packs.Extract.Unmapped.{IsPreserved, extract_and_convert-IsPreserved}
use worm.Normalize.Taxonomy.{known_category}
use worm.Normalize.Taxonomy.Names.{capital}
use worm.Normalize.Event.{normalize}
use worm.Packs.Validate.{Expressions, target_allowed, validate_pack}
use worm.Normalize.Event.Governed.{IsGovernedPack, validate_pack-IsGovernedPack}
use worm.Normalize.Validate.{Checks}
use worm.Normalize.Validate.Accepts.{IsStandard, IsReady, Passes, normalize-Passes}
use worm.Tests.Setup.{no_metadata}

-- Text that is shown as it is.
instance abbrev plain_library : Library
plain_library = record {
  sha256_hex = λ b. b;
  marshal = λ e. none;
  unmarshal = λ b. none;
  sprint = λ v. elim v [ str s ↦ s | _ ↦ codes "?" ];
  raw_id = λ at seq random. random;
  quarantine_id = λ at random. random;
  event_id = λ now seq random. codes "worm-evt-" ++ random;
  generic_event_id = λ now random. random;
  error_text = λ e. [];
  valid_utf8 = λ b. true;
  runes = λ b. [];
  hex_encode = λ b. b;
  float_to_int = λ f. pos 0;
  metadata_json = λ m. m.file_id;
  read_metadata = λ b. some no_metadata;
  json_file_id = λ b. some b;
  json_file_offset = λ b. 0;
  time_text = λ at. [];
  read_time = λ b. 7;
}

instance abbrev plain_conversions : Conversions
plain_conversions = record {
  trim_space = λ s. s;
  parse_ip = λ s. some s;
  parse_int = λ s. none;
  parse_float = λ s. none;
  parse_bool = λ s. none;
  float_of_int = λ n. 0;
  epoch_millis = λ f. pos 0;
  parse_time = λ layout s. none;
  parse_common_time = λ s. none;
  warning = λ name type s. name;
}

abbrev nothing_blank : Bytes → Bool
nothing_blank [] = true
nothing_blank (c ∷ s) = false

instance abbrev plain_checks : Checks
plain_checks = record { blank = nothing_blank; is_ip = λ s. true; is_positive = λ f. true }

abbrev rule : Bytes → Bool → FieldRule
rule from required = record { from = from; type = codes "string"; required = required; layout = [] }

abbrev ssh_pack : ParserPack
ssh_pack = record {
  api_version = codes "worm.io/v1";
  kind = codes "LogSource";
  name = codes "ssh";
  version = codes "1.0.0";
  source_category = codes "os";
  format = codes "syslog";
  match_contains = codes "sshd";
  match_regex = [];
  field_equals = [];
  fields = (codes "u", rule (codes "user") true) ∷ (codes "p", rule (codes "port") false) ∷ [];
  map_rules = (codes "u", codes "event.actor.user.name") ∷ [];
  preserve_unmapped = true;
  compiled_regex = none;
}

abbrev ssh_record : DecodedRecord
ssh_record = record {
  record_ordinal = 0;
  format = codes "syslog";
  headers = end;
  fields = field (codes "user") (str (codes "root")) (field (codes "pid") (str (codes "7")) end);
  raw_payload = codes "sshd";
}

abbrev ssh_raw : RawEvent
ssh_raw = record {
  raw_id = codes "raw-1";
  duplicate = false;
  raw_sha256 = codes "h";
  byte_count = 4;
  transport = codes "syslog-tcp";
  source_ip = codes "10.0.0.1";
  source_port = 514;
  metadata = no_metadata;
  received_at = 7;
  payload = codes "sshd";
  status = accepted;
}

names_differ : str_eq (codes "u") (codes "p") ≡ false
unfolding str_eq
names_differ = refl

u_is_not_p : codes "u" ≢ codes "p"
u_is_not_p e = let h = (str_eq_iff (codes "u") (codes "p")).1 e in let d = names_differ in cc

ssh_pack-AreKeys : AreKeys ssh_pack.fields
ssh_pack-AreKeys = ((u_is_not_p, tt), (tt, tt))

extract_and_convert-IsExtraction_example :
    IsExtraction ssh_pack ssh_record (extract_and_convert ssh_pack ssh_record)
extract_and_convert-IsExtraction_example =
    extract_and_convert-IsExtraction ssh_pack ssh_record ssh_pack-AreKeys

extract_and_convert-IsPreserved_example :
    IsPreserved ssh_record (codes "pid") ssh_pack (extract_and_convert ssh_pack ssh_record)
extract_and_convert-IsPreserved_example =
    extract_and_convert-IsPreserved ssh_record (codes "pid") ssh_pack refl

plain-IsStandard : IsStandard plain_library plain_checks
plain-IsStandard = record {
  sprint_text = λ s. refl;
  capital_shown = λ s h. shown s h;
  event_named = λ now seq random. refl;
}
  where
    shown : (s : Bytes) → capital s ≡ true → nothing_blank s ≡ false
    shown [] h = cc
    shown (c ∷ s) h = refl

ssh-IsReady : IsReady 9 ssh_raw ssh_pack
unfolding known_category split_dots trim_prefix has_prefix str_eq
ssh-IsReady = record {
  identified = refl;
  digested = refl;
  late = omega arith;
  known = refl;
  category = (refl, refl, (refl, tt));
  class = (refl, refl, (refl, tt));
  time = (refl, tt);
}

normalize-Passes_example : Passes 9 (normalize 0 (codes "r") 9 ssh_raw ssh_record ssh_pack []).0
normalize-Passes_example =
    normalize-Passes 9 0 9 (codes "r") ssh_raw ssh_record ssh_pack [] plain-IsStandard ssh-IsReady

instance abbrev plain_expressions : Expressions
plain_expressions = record { is_semver = λ s. true; compile = λ s. none }

validate_pack-IsGovernedPack_example : IsGovernedPack (validate_pack ssh_pack)
validate_pack-IsGovernedPack_example = validate_pack-IsGovernedPack ssh_pack

-- The pack of the example is accepted.
ssh_pack_valid : validate_pack ssh_pack ≡ some ssh_pack
unfolding validate_pack target_allowed known_category trim_prefix has_prefix str_eq
ssh_pack_valid = refl
