-- ===== src/Ycsb/Redis/Server.antt =====
-- workloads/YCSB-C/db/redis_db.cc on a Redis server that keeps what it is told.
use mathlib.Core.Path.{fun_ext}
use ltram_policy_bench.Prelude.{
  ◌≡◌, ◌≢◌, refl, sym, ap, ◌∙◌, List, [], ◌∷◌, map, false, Option, none, some, arith, if◌then◌else◌,
  inl, inr, ◌⊎◌, All, length, Option-cases,
}
use ltram_policy_bench.Ycsb.Text.{Bytes, c_str, str_eq, str_eq_iff}
use ltram_policy_bench.Ycsb.Split.{has_byte, split}
use ltram_policy_bench.Ycsb.StringHashtable.{or_else}
use ltram_policy_bench.Ycsb.Db.{KvPair}
use ltram_policy_bench.Ycsb.Redis.{
  Hiredis, array, status, error, done, command, space, hmset, hmget, update_command, pair_up, asked,
  redis_update, redis_read,
}
use ltram_policy_bench.Ycsb.Redis.Command.{flat, split-update_command}

-- A format that hiredis sends as its words: without a directive, without a NUL byte, and with no two
-- spaces in a row.
abbrev pub IsPlain : Bytes → Type 0
IsPlain cmd =
    (has_byte b'%' cmd ≡ false) × (has_byte 0 cmd ≡ false) × All (λ w. w ≢ []) (split space cmd)

-- The value that a list of pairs has last for a field.
unfoldable pub newest : Bytes → List KvPair → Option Bytes
newest f [] = none
newest f ((field, value) ∷ values) =
    or_else (newest f values) (if str_eq field f then some value else none)

-- What Redis and hiredis document of HMSET and HMGET on a connection with no reply due, to a server
-- that nobody else writes to. HMSET has stored its fields when its reply is a status; the reply may
-- also be an error, as for a key that holds no hash, and then nothing is said. HMGET gets no reply, an
-- error, or an array of the values.
pub record Server (h : Hiredis) : Type 1 where
  pub field : h.Context → Bytes → Bytes → Option Bytes
  pub IsIdle : h.Context → Type 0
  pub hmset_done :
      (cmd key k f : Bytes) (values : List KvPair) (c : h.Context)
      → IsIdle c
      → IsPlain cmd
      → split space cmd ≡ hmset ∷ key ∷ flat values
      → (h.get_reply (h.append_command cmd c)).0 ≡ some status
      → field (h.get_reply (h.append_command cmd c)).1 k f
        ≡ (if str_eq key k then or_else (newest f values) (field c k f) else field c k f)
  pub hmset-IsIdle :
      (cmd : Bytes) (c : h.Context)
      → IsIdle c
      → IsPlain cmd
      → (h.get_reply (h.append_command cmd c)).0 ≡ some status
      → IsIdle (h.get_reply (h.append_command cmd c)).1
  pub hmget_reply :
      (key : Bytes) (fields : List Bytes) (c : h.Context)
      → IsIdle c
      → let reply = (h.command_argv (hmget ∷ key ∷ fields) c).0 in
        (reply ≡ none) ⊎ ((reply ≡ some error) ⊎ (reply ≡ some (array (map (field c key) fields))))

-- The text of a value in a result: empty where there is none.
abbrev pub text_of : Option Bytes → Bytes
text_of none = []
text_of (some value) = c_str value

module _ (h : Hiredis) (sv : Server h) where
  pair_up-map :
      (g : Bytes → Option Bytes) (fields : List Bytes)
      → pair_up fields (map g fields) ≡ map (λ f. (f, text_of (g f))) fields
  unfolding pair_up
  pair_up-map g [] = refl
  pair_up-map g (f ∷ fs) = elim (Option-cases (g f)) [
    | inl e ↦ ground (arith, pair_up-map g fs)
    | inr (v, e) ↦ ground (arith, pair_up-map g fs)
  ]

  length-map :
      (g : Bytes → Option Bytes) (fields : List Bytes) → length (map g fields) ≡ length fields
  length-map g [] = refl
  length-map g (f ∷ fs) = omega (arith, length-map g fs)

  -- Without replicas, on an idle connection to a server that keeps what it acknowledges: after an
  -- update that returns, whose command hiredis sends as its words and whose reply is a status, for a
  -- key without a space, a read of any fields of the same key that returns and got a reply has each
  -- field with the value that the update gave it last, or, where it gave none, with the one from
  -- before; a field without a value is empty, and a value ends before its first NUL byte.
  pub redis_read-update :
      (key cmd : Bytes) (values result : List KvPair) (fields : List Bytes) (c c' c'' : h.Context)
      → sv.IsIdle c
      → has_byte space key ≡ false
      → update_command key values ≡ some cmd
      → IsPlain cmd
      → redis_update h 0 key values c ≡ done c'
      → (h.get_reply (h.append_command cmd c)).0 ≡ some status
      → redis_read h key (some fields) [] c' ≡ done (result, c'')
      → (h.command_argv (hmget ∷ key ∷ fields) c').0 ≢ none
      → result ≡ map (λ f. (f, text_of (or_else (newest f values) (sv.field c key f)))) fields
  unfolding redis_update redis_read asked command
  redis_read-update key cmd values result fields c c' c'' idle spaced built plain updated
        acknowledged got replied =
      let words = split-update_command key values cmd spaced built in
      let next = h.get_reply (h.append_command cmd c) in
      let went : next.1 ≡ c' = ground (arith, built, updated, acknowledged) in
      let idle' : sv.IsIdle c' = rw (← went) (sv.hmset-IsIdle cmd c idle plain acknowledged) in
      let now : sv.field c' key ≡ (λ f. or_else (newest f values) (sv.field c key f)) =
        fun_ext (λ f. ground (
          arith,
          sv.hmset_done cmd key key f values c idle plain words acknowledged,
          went,
          str_eq_iff key key,
        )) in
      elim (sv.hmget_reply key fields c' idle') [
        | inl e ↦ absurd (replied e)
        | inr (inl e) ↦ absurd (ground (arith, e, got))
        | inr (inr e) ↦
            let same_length = length-map (sv.field c' key) fields in
            let read : pair_up fields (map (sv.field c' key) fields) ≡ result =
              ground (arith, e, same_length, got) in
            sym read
            ∙ pair_up-map (sv.field c' key) fields
            ∙ ap (λ g. map (λ f. (f, text_of (g f))) fields) now
      ]
