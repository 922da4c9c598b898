-- ===== src/Tests/Server.antt =====
-- workloads/YCSB-C/db/redis_db.cc and workloads/YCSB-C/redis/sample.cc on a small server, which keeps
-- its hashes and does an HMSET when its reply is read.
use ltram_policy_bench.Prelude.{
  ◌≡◌, refl, ap, List, [], ◌∷◌, ◌++◌, map, false, Option, none, some, arith, if◌then◌else◌, inl,
  inr, ◌⊎◌,
}
use ltram_policy_bench.Ycsb.Text.{Bytes, c_str, str_eq, str_eq_iff}
use ltram_policy_bench.Ycsb.Split.{has_byte, split}
use ltram_policy_bench.Ycsb.StringHashtable.{or_else}
use ltram_policy_bench.Ycsb.Db.{KvPair}
use ltram_policy_bench.Ycsb.Redis.{
  Hiredis, Reply, array, status, error, hmget, done, command, space, hmset, update_command,
  append_pairs, reserved, redis_client, redis_update, redis_read, asked, pair_up,
}
use ltram_policy_bench.Ycsb.Redis.Command.{flat}
use ltram_policy_bench.Ycsb.Redis.Server.{Server, IsPlain, newest, text_of, redis_read-update}
use ltram_policy_bench.Ycsb.Redis.Sample.{
  sample, set_second, set_up_command, out_of_range, ren, field1, field3, mail,
}

record Hashes : Type 0 where
  store : Bytes → Bytes → Option Bytes
  queue : List Bytes

abbrev unflat : List Bytes → List KvPair
unflat [] = []
unflat (f ∷ []) = []
unflat (f ∷ v ∷ ws) = (f, v) ∷ unflat ws

unflat-flat : (values : List KvPair) → unflat (flat values) ≡ values
unfolding flat
unflat-flat [] = refl
unflat-flat ((f, v) ∷ values) = ap (λ l. (f, v) ∷ l) (unflat-flat values)

abbrev execute : List Bytes → (Bytes → Bytes → Option Bytes) → Bytes → Bytes → Option Bytes
execute [] store k f = store k f
execute (w ∷ []) store k f = store k f
execute (w ∷ key ∷ ws) store k f =
    if str_eq w hmset
    then (if str_eq key k then or_else (newest f (unflat ws)) (store k f) else store k f)
    else store k f

-- A command with a key but no fields gets an error.
abbrev answer_to : List Bytes → Reply
answer_to (w ∷ key ∷ f ∷ v ∷ ws) = status
answer_to _ = error

abbrev next_reply : List Bytes → Hashes → Option Reply × Hashes
next_reply [] c = (none, c)
next_reply (cmd ∷ cmds) c = (
  some (answer_to (split space cmd)),
  record { store = execute (split space cmd) c.store; queue = cmds },
)

abbrev reply_to : List Bytes → Hashes → Option Reply
reply_to (w ∷ key ∷ []) c = some error
reply_to (w ∷ key ∷ f ∷ fields) c = some (array (map (c.store key) (f ∷ fields)))
reply_to _ c = none

abbrev keeping : Hiredis
keeping = record {
  Context = Hashes;
  command_argv = λ words c. (reply_to words c, c);
  command_hgetall = λ key c. (none, c);
  append_command = λ cmd c. record c { queue = c.queue ++ cmd ∷ [] };
  append_wait = λ n t c. c;
  get_reply = λ c. next_reply c.queue c;
}

abbrev Idle : Hashes → Type 0
Idle c = c.queue ≡ []

keeps :
    (cmd key k f : Bytes) (values : List KvPair) (c : Hashes)
    → Idle c
    → split space cmd ≡ hmset ∷ key ∷ flat values
    → (keeping.get_reply (keeping.append_command cmd c)).1.store k f
      ≡ (if str_eq key k then or_else (newest f values) (c.store k f) else c.store k f)
keeps cmd key k f values c idle words = ground (arith, unflat-flat values, str_eq_iff hmset hmset)

append-Idle :
    (cmd : Bytes) (c : Hashes) → Idle c → Idle (keeping.get_reply (keeping.append_command cmd c)).1
append-Idle cmd c idle = ground arith

reply_to-lands :
    (key : Bytes) (fields : List Bytes) (c : Hashes)
    → Idle c
    → let reply = reply_to (hmget ∷ key ∷ fields) c in
      (reply ≡ none) ⊎ ((reply ≡ some error) ⊎ (reply ≡ some (array (map (c.store key) fields))))
reply_to-lands key [] c idle = inr (inl refl)
reply_to-lands key (f ∷ fields) c idle = inr (inr refl)

abbrev keeping_server : Server keeping
keeping_server = record {
  field = λ c. c.store;
  IsIdle = Idle;
  hmset_done = λ cmd key k f values c idle plain words fine. keeps cmd key k f values c idle words;
  hmset-IsIdle = λ cmd c idle plain fine. append-Idle cmd c idle;
  hmget_reply = reply_to-lands;
}

abbrev empty : Hashes
empty = record { store = λ k f. none; queue = [] }

abbrev one_pair : List KvPair
one_pair = (field1, mail) ∷ []

abbrev line : Bytes
line = hmset ++ space ∷ (ren ++ space ∷ (field1 ++ space ∷ mail))

abbrev updated : Hashes
updated = record { store = execute (split space line) empty.store; queue = [] }

line_built : update_command ren one_pair ≡ some line
unfolding update_command append_pairs reserved has_byte
line_built = refl

line-IsPlain : IsPlain line
unfolding has_byte split
line-IsPlain = (
  refl,
  refl,
  (
    λ e. absurd (ground arith),
    (λ e. absurd (ground arith), (λ e. absurd (ground arith), (λ e. absurd (ground arith), tt))),
  ),
)

line_sent : redis_update keeping 0 ren one_pair empty ≡ done updated
unfolding redis_update update_command append_pairs reserved has_byte command
line_sent = refl

acknowledged : (keeping.get_reply (keeping.append_command line empty)).0 ≡ some status
unfolding split
acknowledged = refl

abbrev answer : List KvPair
answer = (field1, mail) ∷ (field3, []) ∷ []

read_both : redis_read keeping ren (some (field1 ∷ field3 ∷ [])) [] updated ≡ done (answer, updated)
unfolding redis_read asked pair_up c_str split str_eq newest
read_both = refl

no_space : has_byte space ren ≡ false
unfolding has_byte
no_space = refl

redis_read-update_example :
    answer
    ≡ map
        (λ f. (f, text_of (or_else (newest f one_pair) (empty.store ren f))))
        (field1 ∷ field3 ∷ [])
redis_read-update_example =
    redis_read-update keeping keeping_server ren line one_pair answer (field1 ∷ field3 ∷ []) empty
      updated updated refl no_space line_built line-IsPlain line_sent acknowledged read_both
      (λ e. absurd (ground arith))

-- On a server whose replies to HMGET are missing, the sample writes past the end of its result.
abbrev silent : Hiredis
silent = record keeping { command_argv = λ words c. (none, c) }

past_the_end : sample silent (some (empty, false)) (λ c. some (c, false)) ≡ done (out_of_range [])
unfolding sample redis_client command set_up_command redis_read asked set_second
past_the_end = refl
