-- ===== src/Ycsb/Redis/Sample.antt =====
-- workloads/YCSB-C/redis/sample.cc
use ltram_policy_bench.Prelude.{ℕ, List, [], ◌∷◌, ◌++◌, Bool, Option, none, some, length}
use ltram_policy_bench.Ycsb.Text.{Bytes}
use ltram_policy_bench.Ycsb.Db.{KvPair}
use ltram_policy_bench.Ycsb.Redis.{
  Hiredis, Run, done, exited, aborted, redis_client, command, space, hmset, redis_read,
  redis_update, redis_delete,
}

abbrev pub ren : Bytes
ren = b'R' ∷ b'e' ∷ b'n' ∷ []

abbrev pub field1 : Bytes
field1 = b'f' ∷ b'i' ∷ b'e' ∷ b'l' ∷ b'd' ∷ b'1' ∷ []

abbrev pub field2 : Bytes
field2 = b'f' ∷ b'i' ∷ b'e' ∷ b'l' ∷ b'd' ∷ b'2' ∷ []

abbrev pub field3 : Bytes
field3 = b'f' ∷ b'i' ∷ b'e' ∷ b'l' ∷ b'd' ∷ b'3' ∷ []

abbrev pub mail : Bytes
mail =
    b'j' ∷ b'i' ∷ b'n' ∷ b'g' ∷ b'l' ∷ b'e' ∷ b'i' ∷ b'@' ∷ b'r' ∷ b'e' ∷ b'n' ∷ b'.' ∷ b's' ∷ b'y'
    ∷ b's' ∷ b't' ∷ b'e' ∷ b'm' ∷ b's' ∷ []

abbrev pub jinglei : Bytes
jinglei = b'J' ∷ b'i' ∷ b'n' ∷ b'g' ∷ b'l' ∷ b'e' ∷ b'i' ∷ []

abbrev pub hello_world : Bytes
hello_world = b'H' ∷ b'e' ∷ b'l' ∷ b'l' ∷ b'o' ∷ b'W' ∷ b'o' ∷ b'r' ∷ b'l' ∷ b'd' ∷ b'!' ∷ []

-- The first command.
unfoldable pub set_up_command : Bytes
set_up_command =
    hmset
    ++ space ∷ (ren ++ space ∷ (field1 ++ space ∷ (mail ++ space ∷ (field2 ++ space ∷ jinglei))))

-- `result[1].second = value`, where there may be no `result[1]`.
unfoldable pub set_second : Bytes → List KvPair → Option (List KvPair)
set_second value [] = none
set_second value (_ ∷ []) = none
set_second value (p ∷ (field, _) ∷ ps) = some (p ∷ (field, value) ∷ ps)

-- What is printed: two lists of pairs, and how many there are after the deletion; or an access out
-- of range after the first list.
pub data Printed : Type 0 where
  all_of_it : List KvPair → List KvPair → ℕ → Printed
  out_of_range : List KvPair → Printed

module _ (h : Hiredis) where
  infixl 10 ◌>>=◌
  abbrev ◌>>=◌ : {A B : Type 0} → Run A → (A → Run B) → Run B
  done a >>= f = f a
  exited n >>= f = exited n
  aborted >>= f = aborted

  -- From the update on.
  unfoldable pub change : List KvPair → List KvPair → h.Context → Run Printed
  change printed result c = do
    c₁ ← redis_update h 0 ren result c
    r₂ ← redis_read h ren none [] c₁
    c₃ ← redis_delete h 0 ren r₂.1
    r₄ ← redis_read h ren none [] c₃
    done (all_of_it printed r₂.0 (length r₄.0))

  -- The two arguments are what redisConnect returns, for the client and then for the database.
  unfoldable pub sample :
      Option (h.Context × Bool) → (h.Context → Option (h.Context × Bool)) → Run Printed
  sample first second = do
    c ← redis_client h first
    c₁ ← command h 0 set_up_command c
    d ← redis_client h (second c₁)
    r ← redis_read h ren (some (field1 ∷ field3 ∷ [])) [] d
    elim (set_second hello_world r.0) [
      | none ↦ done (out_of_range r.0)
      | some result ↦ change r.0 result r.1
    ]
