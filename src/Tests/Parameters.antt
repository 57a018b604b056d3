-- ===== src/Tests/Parameters.antt =====
-- A Parameter Store that denies one key, and a document of a file.
use confd.Prelude.{◌≡◌, ◌↔◌, true, none, some, List, [], ◌∷◌, if◌then◌else◌}
use confd.Std.Text.{Text, codes, same}
use confd.Backends.Ssm
use confd.Backends.Ssm.{AwsError, Service, get_values}
use confd.Backends.Ssm.Errors.{FailsAt, get_values-FailsAt}
use confd.Backends.File
use confd.Backends.File.{Node}

abbrev denied : AwsError
denied = record { code = codes "AccessDeniedException" }

-- Something lies under each path, but for the one that may not be read.
abbrev service : Service
service = record {
  pages = λ key.
      if same key (codes "/b")
      then Ssm.err denied
      else Ssm.ok (((codes "/a/x", codes "v") ∷ []) ∷ []);
  parameter = λ key. Ssm.err denied;
}

abbrev keys : List Text
keys = codes "/a" ∷ codes "/b" ∷ []

get_values-FailsAt_example :
    (get_values service keys ≡ Ssm.err denied) ↔ FailsAt service denied keys
get_values-FailsAt_example = get_values-FailsAt service keys denied

-- A mapping with a sequence under its first key, and a second key that is no string.
abbrev document : Node
document = File.mapping (
    File.entry (some (codes "a"))
      (File.seq (File.item (File.text (codes "x")) (File.item (File.boolean true) File.end)))
      (File.entry none (File.text (codes "y")) File.stop))
