-- ===== src/Ycsb/Redis/Pipeline.antt =====
-- The commands and replies of workloads/YCSB-C/redis/redis_client.h on one connection.
use ltram_policy_bench.Prelude.{
  ℕ, ◌⊎◌, refl, ap, List, [], ◌∷◌, ◌++◌, map, Option, none, some, inl, inr, Option-cases, length,
  ◌+◌, ◌-◌, ◌≡◌, arith,
}
use ltram_policy_bench.Ycsb.Text.{Bytes}
use ltram_policy_bench.Ycsb.Redis.{
  Hiredis, array, status, error, other, done, command, pair_up, hmget, asked, redis_read,
}
use ltram_policy_bench.Ycsb.Db.{KvPair}

-- hiredis queues one reply for a command, and a reply that is read is gone.
pub record Queue (h : Hiredis) : Type 0 where
  pub pending : h.Context → ℕ
  pub append_command :
      (cmd : Bytes) (c : h.Context) → pending (h.append_command cmd c) ≡ pending c + 1
  pub append_wait : (n t : ℕ) (c : h.Context) → pending (h.append_wait n t c) ≡ pending c + 1
  pub get_reply : (c : h.Context) → pending (h.get_reply c).1 ≡ pending c - 1

-- On a connection that queues one reply for a command and drops a reply that is read, a command
-- that returns leaves as many replies queued as there were, with and without replicas.
pub command-balanced :
    (h : Hiredis) (q : Queue h) (slaves : ℕ) (cmd : Bytes) (c c' : h.Context)
    → command h slaves cmd c ≡ done c'
    → q.pending c' ≡ q.pending c
unfolding command
command-balanced h q slaves cmd c c' e =
    let c₁ = h.append_command cmd c in
    let c₂ = h.append_wait slaves 0 c₁ in
    ground (
      arith,
      q.append_command cmd c,
      q.append_wait slaves 0 c₁,
      q.get_reply c₁,
      q.get_reply c₂,
      q.get_reply (h.get_reply c₂).1,
    )

map-append :
    (ps qs : List KvPair) → map (λ p. p.0) (ps ++ qs) ≡ map (λ p. p.0) ps ++ map (λ p. p.0) qs
map-append [] qs = refl
map-append (p ∷ ps) qs = ap (λ l. p.0 ∷ l) (map-append ps qs)

map-pair_up :
    (fs : List Bytes) (es : List (Option Bytes))
    → length fs ≡ length es
    → map (λ p. p.0) (pair_up fs es) ≡ fs
unfolding pair_up
map-pair_up [] es e = refl
map-pair_up (f ∷ fs) [] e = absurd (ground arith)
map-pair_up (f ∷ fs) (none ∷ es) e = ap (λ l. f ∷ l) (map-pair_up fs es (omega arith))
map-pair_up (f ∷ fs) (some v ∷ es) e = ap (λ l. f ∷ l) (map-pair_up fs es (omega arith))

-- A read of some fields that returns has added either nothing, when there was no reply, or one pair
-- for each of those fields, in their order.
pub redis_read-fields :
    (h : Hiredis) (key : Bytes) (fields : List Bytes) (result result' : List KvPair)
    (c c' : h.Context)
    → redis_read h key (some fields) result c ≡ done (result', c')
    → (result' ≡ result) ⊎ (map (λ p. p.0) result' ≡ map (λ p. p.0) result ++ fields)
unfolding redis_read asked
redis_read-fields h key fields result result' c c' e =
    let (reply, c₁) = h.command_argv (hmget ∷ key ∷ fields) c in
    elim (Option-cases reply) [
      | inl f ↦ inl (ground arith)
      | inr (status, f) ↦ absurd (ground arith)
      | inr (error, f) ↦ absurd (ground arith)
      | inr (other, f) ↦ absurd (ground arith)
      | inr (array es, f) ↦
          inr (ground (arith, map-pair_up fields es, map-append result (pair_up fields es)))
    ]
