-- ===== src/Ycsb/Redis.antt =====
-- workloads/YCSB-C/redis/redis_client.h and workloads/YCSB-C/db/redis_db.{h,cc}: the Redis client.
-- The hiredis library under it is a parameter: a connection, on which commands are queued and
-- replies are read.
pub mod Command
pub mod Pipeline
pub mod Sample
pub mod Server
use ltram_policy_bench.Prelude.{
  ℕ, zero, suc, ◌+◌, ◌*◌, ◌/◌, List, [], ◌∷◌, ◌++◌, Bool, true, false, not, ◌||◌, Option, none,
  some, ◌==◌, if◌then◌else◌, length,
}
use ltram_policy_bench.Ycsb.Text.{Bytes, c_str}
use ltram_policy_bench.Ycsb.Split.{has_byte}
use ltram_policy_bench.Ycsb.StringHashtable.{is_some}
use ltram_policy_bench.Ycsb.Db.{KvPair}

-- A reply is an array of strings, some of them NULL, a status such as OK, an error of the server, or
-- of another type.
pub data Reply : Type 0 where
  array : List (Option Bytes) → Reply
  status error other : Reply

-- The calls of hiredis: a queued command with its printf format, the format with two numbers for
-- WAIT, the next reply, where `none` is REDIS_ERR, and two calls that send a command and wait for its
-- reply, which is NULL on an error: one with its words, one with the format `HGETALL %s`.
pub record Hiredis : Type 1 where
  pub Context : Type 0
  pub command_argv : List Bytes → Context → Option Reply × Context
  pub command_hgetall : Bytes → Context → Option Reply × Context
  pub append_command : Bytes → Context → Context
  pub append_wait : ℕ → ℕ → Context → Context
  pub get_reply : Context → Option Reply × Context

-- A call that returns, `exit(n)`, or a failed assertion.
pub data Run {ℓ} (A : Type ℓ) : Type ℓ where
  done : A → Run A
  exited : ℕ → Run A
  aborted : Run A

module _ (h : Hiredis) where
  -- The constructor of `RedisClient` on what redisConnect returns: NULL, or a context with whether
  -- its `err` is set.
  unfoldable pub redis_client : Option (h.Context × Bool) → Run h.Context
  redis_client none = exited 1
  redis_client (some (c, err)) = if err then exited 1 else done c

  -- `RedisClient::Command`; HandleError prints, frees and calls exit(2). A reply is freed
  -- without a look at its type, so an error of the server is no error here.
  unfoldable pub command : ℕ → Bytes → h.Context → Run h.Context
  command slaves cmd c =
      let c₁ = h.append_command cmd c in
      let c₂ = if slaves == 0 then c₁ else h.append_wait slaves 0 c₁ in
      let (reply, c₃) = h.get_reply c₂ in
      if not (is_some reply)
      then exited 2
      else if slaves == 0
      then done c₃
      else let (reply', c₄) = h.get_reply c₃ in if is_some reply' then done c₄ else exited 2

abbrev pub space : ℕ
space = 0x20

abbrev pub hmset : Bytes
hmset = b'H' ∷ b'M' ∷ b'S' ∷ b'E' ∷ b'T' ∷ []

-- The length that `Update` reserves.
unfoldable pub reserved : Bytes → List KvPair → ℕ
reserved key [] = length hmset + length key + 1
reserved key ((f, v) ∷ values) = reserved key values + (length f + length v + 2)

-- The loop of `Update`, whose two assertions stop the program.
unfoldable pub append_pairs : Bytes → List KvPair → Option Bytes
append_pairs cmd [] = some cmd
append_pairs cmd ((f, v) ∷ values) =
    let rest = append_pairs ((cmd ++ (space ∷ f)) ++ (space ∷ v)) values in
    if has_byte space f || has_byte space v then none else rest

-- The command of `RedisDB::Update`, with the assertion on its length.
unfoldable pub update_command : Bytes → List KvPair → Option Bytes
update_command key values = elim (append_pairs (hmset ++ (space ∷ key)) values) [
  | none ↦ none
  | some cmd ↦ if length cmd == reserved key values then some cmd else none
]

-- The elements of a reply to HMGET, NULL where a field is missing, beside the fields.
unfoldable pub pair_up : List Bytes → List (Option Bytes) → List KvPair
pair_up [] es = []
pair_up (f ∷ fs) [] = []
pair_up (f ∷ fs) (none ∷ es) = (f, []) ∷ pair_up fs es
pair_up (f ∷ fs) (some v ∷ es) = (f, c_str v) ∷ pair_up fs es

-- The elements of a reply to HGETALL, two by two; an odd one at the end is left out, and there is no
-- string for NULL.
unfoldable pub pairs_of : List (Option Bytes) → Option (List KvPair)
pairs_of [] = some []
pairs_of (f ∷ []) = some []
pairs_of (none ∷ v ∷ es) = none
pairs_of (some f ∷ none ∷ es) = none
pairs_of (some f ∷ some v ∷ es) = elim (pairs_of es) [
  | none ↦ none
  | some ps ↦ some ((c_str f, c_str v) ∷ ps)
]

abbrev pub hmget : Bytes
hmget = b'H' ∷ b'M' ∷ b'G' ∷ b'E' ∷ b'T' ∷ []

-- The command of `RedisDB::Delete`.
abbrev pub del : Bytes
del = b'D' ∷ b'E' ∷ b'L' ∷ space ∷ []

module _ (h : Hiredis) where
  -- The two ways of `RedisDB::Read` to take a reply.
  unfoldable pub asked :
      List Bytes → List KvPair → Option Reply → h.Context → Run (List KvPair × h.Context)
  asked fields result none c = done (result, c)
  asked fields result (some (array es)) c =
      if length fields == length es then done (result ++ pair_up fields es, c) else aborted
  asked fields result (some _) c = aborted

  unfoldable pub everything : List KvPair → Option Reply → h.Context → Run (List KvPair × h.Context)
  everything result none c = done (result, c)
  everything result (some (array es)) c = elim (pairs_of es) [
    | none ↦ aborted
    | some ps ↦ done (result ++ ps, c)
  ]
  everything result (some _) c = aborted

  -- `Read`, which returns kOK whenever it returns.
  unfoldable pub redis_read :
      Bytes → Option (List Bytes) → List KvPair → h.Context → Run (List KvPair × h.Context)
  redis_read key (some fields) result c =
      let (reply, c') = h.command_argv (hmget ∷ key ∷ fields) c in asked fields result reply c'
  redis_read key none result c =
      let (reply, c') = h.command_hgetall (c_str key) c in everything result reply c'

  -- `Update` and `Insert`, then `Delete`; each returns kOK whenever it returns.
  unfoldable pub redis_update : ℕ → Bytes → List KvPair → h.Context → Run h.Context
  redis_update slaves key values c = elim (update_command key values) [
    | none ↦ aborted
    | some cmd ↦ command h slaves cmd c
  ]

  unfoldable pub redis_delete : ℕ → Bytes → h.Context → Run h.Context
  redis_delete slaves key c = command h slaves (del ++ key) c
