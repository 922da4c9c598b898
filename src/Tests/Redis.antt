-- ===== src/Tests/Redis.antt =====
-- workloads/YCSB-C/redis/redis_client.h and workloads/YCSB-C/db/redis_db.cc over a connection that
-- counts the replies that are due and answers every read with one string and a NULL.
use ltram_policy_bench.Prelude.{
  ℕ, ◌+◌, ◌-◌, ◌≡◌, refl, List, [], ◌∷◌, ◌++◌, false, none, some, if◌then◌else◌, ◌==◌,
}
use ltram_policy_bench.Ycsb.Text.{Bytes, c_str}
use ltram_policy_bench.Ycsb.Db.{KvPair}
use ltram_policy_bench.Ycsb.Redis.{
  Hiredis, array, status, done, command, hmset, space, update_command, append_pairs, reserved,
  redis_read, asked, pair_up,
}
use ltram_policy_bench.Ycsb.Split.{has_byte}
use ltram_policy_bench.Ycsb.Redis.Command.{spaceless, spelled, update_command_lem}

abbrev server : Hiredis
server = record {
  Context = ℕ;
  command_argv = λ words c. (some (array (some (b'x' ∷ []) ∷ none ∷ [])), c);
  command_hgetall = λ key c. (none, c);
  append_command = λ cmd c. c + 1;
  append_wait = λ n t c. c + 1;
  get_reply = λ c. (if c == 0 then none else some status, c - 1);
}

abbrev f1 : Bytes
f1 = b'f' ∷ b'1' ∷ []

abbrev f2 : Bytes
f2 = b'f' ∷ b'2' ∷ []

abbrev record1 : List KvPair
record1 = (f1, b'x' ∷ []) ∷ (f2, b'y' ∷ b'z' ∷ []) ∷ []

abbrev user : Bytes
user = b'u' ∷ b'7' ∷ []

abbrev hmset_line : Bytes
hmset_line = (hmset ++ (space ∷ user)) ++ spelled record1

hmset_made : update_command user record1 ≡ some hmset_line
unfolding update_command append_pairs reserved has_byte spelled
hmset_made = refl

command_with_wait : command server 2 hmset_line 0 ≡ done 0
unfolding command
command_with_wait = refl

update_command_lem_example :
    update_command user record1
    ≡ (if spaceless record1 then some ((hmset ++ (space ∷ user)) ++ spelled record1) else none)
update_command_lem_example = update_command_lem user record1

no_space : has_byte space user ≡ false
unfolding has_byte
no_space = refl

abbrev answer : List KvPair
answer = (f1, b'x' ∷ []) ∷ (f2, []) ∷ []

read_two : redis_read server user (some (f1 ∷ f2 ∷ [])) [] 0 ≡ done (answer, 0)
unfolding redis_read asked pair_up c_str
read_two = refl
