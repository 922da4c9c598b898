-- ===== src/Ycsb/Redis/Command.antt =====
-- The HMSET command that workloads/YCSB-C/db/redis_db.cc builds.
use ltram_policy_bench.Prelude.{
  ◌≡◌, List, [], ◌∷◌, ◌++◌, Bool, true, false, ◌||◌, none, some, arith, if◌then◌else◌, length,
  length-append, append_assoc, append-nil, ◌∙◌, ap,
}
use ltram_policy_bench.Ycsb.Text.{Bytes}
use ltram_policy_bench.Ycsb.Split.{has_byte, split, split-word, split-last}
use ltram_policy_bench.Ycsb.Db.{KvPair}
use ltram_policy_bench.Ycsb.Redis.{space, hmset, reserved, append_pairs, update_command}

-- No field and no value has a space.
unfoldable pub spaceless : List KvPair → Bool
spaceless [] = true
spaceless ((f, v) ∷ values) =
    if has_byte space f || has_byte space v then false else spaceless values

-- The words of the pairs, each after a space.
unfoldable pub spelled : List KvPair → Bytes
spelled [] = []
spelled ((f, v) ∷ values) = (space ∷ f) ++ ((space ∷ v) ++ spelled values)

append_pairs_lem :
    (cmd : Bytes) (values : List KvPair)
    → append_pairs cmd values ≡ (if spaceless values then some (cmd ++ spelled values) else none)
unfolding append_pairs spaceless spelled
append_pairs_lem cmd [] = rw append-nil
append_pairs_lem cmd ((f, v) ∷ values) =
    let sf = space ∷ f in
    let sv = space ∷ v in
    let rest = spelled values in
    let grouped : ((cmd ++ sf) ++ sv) ++ rest ≡ cmd ++ (sf ++ (sv ++ rest)) =
      append_assoc (cmd ++ sf) sv rest ∙ append_assoc cmd sf (sv ++ rest) in
    ground (arith, append_pairs_lem ((cmd ++ sf) ++ sv) values, grouped)

length-spelled :
    (key : Bytes) (values : List KvPair)
    → length ((hmset ++ (space ∷ key)) ++ spelled values) ≡ reserved key values
unfolding spelled reserved
length-spelled key [] = simp append-nil (omega arith)
length-spelled key ((f, v) ∷ values) =
    simp length-append
      (omega (arith, length-spelled key values, length-append key (spelled values)))

-- The assertion on the length never fails: the program stops exactly when a field or a value has a
-- space, and otherwise the command is HMSET, the key, and each field with its value, each after one
-- space.
pub update_command_lem :
    (key : Bytes) (values : List KvPair)
    → update_command key values
      ≡ (if spaceless values then some ((hmset ++ (space ∷ key)) ++ spelled values) else none)
unfolding update_command
update_command_lem key values =
    rw (append_pairs_lem (hmset ++ (space ∷ key)) values, update_command)
      (ground (arith, length-spelled key values))

-- The fields and values one after the other.
unfoldable pub flat : List KvPair → List Bytes
flat [] = []
flat ((f, v) ∷ values) = f ∷ v ∷ flat values

split-spelled :
    (w : Bytes) (values : List KvPair)
    → has_byte space w ≡ false
    → spaceless values ≡ true
    → split space (w ++ spelled values) ≡ w ∷ flat values
unfolding spelled flat spaceless
split-spelled w [] h k = rw append-nil (split-last space w h)
split-spelled w ((f, v) ∷ values) h k = ground (
  arith,
  split-word space w (f ++ ((space ∷ v) ++ spelled values)),
  split-word space f (v ++ spelled values),
  split-spelled v values,
)

-- Where the key has no space and the command was built, cutting the command at its spaces gives
-- back HMSET, the key and the fields and values in order.
pub split-update_command :
    (key : Bytes) (values : List KvPair) (cmd : Bytes)
    → has_byte space key ≡ false
    → update_command key values ≡ some cmd
    → split space cmd ≡ hmset ∷ key ∷ flat values
unfolding split
split-update_command key values cmd h e =
    let w = (hmset ++ (space ∷ key)) ++ spelled values in
    let parts : (spaceless values ≡ true) × (w ≡ cmd) =
      ground (arith, update_command_lem key values) in
    rw (← parts.1) (ap (λ ws. hmset ∷ ws) (split-spelled key values h parts.0))
