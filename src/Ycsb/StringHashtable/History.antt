-- ===== src/Ycsb/StringHashtable/History.antt =====
-- Any sequence of calls on a table with the interface of workloads/YCSB-C/lib/string_hashtable.h,
-- against a map that is a function of the key.
use mathlib.Core.Path.{fun_ext}
use ltram_policy_bench.Prelude.{
  ◌≡◌, refl, ap, ◌∙◌, List, [], ◌∷◌, Bool, not, Option, none, some, arith, if◌then◌else◌,
}
use ltram_policy_bench.Ycsb.Text.{Bytes, str_eq}
use ltram_policy_bench.Ycsb.StringHashtable.{StringHashtable, is_some, or_else}

pub data Call (V : Type 0) : Type 0 where
  put : Bytes → V → Call V
  change : Bytes → V → Call V
  drop : Bytes → Call V

module _ {V : Type 0} where
  -- One call on a function of the key; the Boolean says whether it did what it was asked to.
  unfoldable pub meant : Call V → (Bytes → Option V) → Bool × (Bytes → Option V)
  meant (put k v) f = (not (is_some (f k)), λ q. if str_eq k q then or_else (f q) (some v) else f q)
  meant (change k v) f =
      (is_some (f k), λ q. if str_eq k q then (if is_some (f q) then some v else none) else f q)
  meant (drop k) f = (is_some (f k), λ q. if str_eq k q then none else f q)

  unfoldable pub mean : List (Call V) → (Bytes → Option V) → List Bool × (Bytes → Option V)
  mean [] f = ([], f)
  mean (c ∷ cs) f = let (b, f') = meant c f in let (bs, f'') = mean cs f' in (b ∷ bs, f'')

module _ {V : Type 0} (T : StringHashtable V) where
  -- The same calls on a table.
  unfoldable pub perform : Call V → T.Table → Bool × T.Table
  perform (put k v) t = T.insert (some k) v t
  perform (change k v) t = let (old, t') = T.update k v t in (is_some old, t')
  perform (drop k) t = let (old, t') = T.remove k t in (is_some old, t')

  unfoldable pub run : List (Call V) → T.Table → List Bool × T.Table
  run [] t = ([], t)
  run (c ∷ cs) t = let (b, t') = perform c t in let (bs, t'') = run cs t' in (b ∷ bs, t'')

  abbrev pub view : T.Table → Bytes → Option V
  view t q = T.get q t

  perform-IsValid : (c : Call V) (t : T.Table) → T.IsValid t → T.IsValid (perform c t).1
  unfolding perform
  perform-IsValid (put k v) t h = T.insert-IsValid (some k) v t h
  perform-IsValid (change k v) t h = T.update-IsValid k v t h
  perform-IsValid (drop k) t h = T.remove-IsValid k t h

  perform_reply : (c : Call V) (t : T.Table) → (perform c t).0 ≡ (meant c (view t)).0
  unfolding perform meant
  perform_reply (put k v) t = ground (arith, T.insert_result k v t)
  perform_reply (change k v) t = ap is_some (T.update_result k v t)
  perform_reply (drop k) t = ap is_some (T.remove_result k t)

  view-perform :
      (c : Call V) (t : T.Table) → T.IsValid t → view (perform c t).1 ≡ (meant c (view t)).1
  unfolding perform meant
  view-perform (put k v) t h = fun_ext (λ q. T.get-insert k q v t)
  view-perform (change k v) t h = fun_ext (λ q. T.get-update k q v t)
  view-perform (drop k) t h = fun_ext (λ q. T.get-remove k q t h)

  -- Whatever calls are made on a valid table of any implementation, each reports what the map
  -- reports, and in the end `Get` reads what the map holds.
  pub run_means :
      (cs : List (Call V)) (t : T.Table)
      → T.IsValid t
      → ((run cs t).0 ≡ (mean cs (view t)).0) × (view (run cs t).1 ≡ (mean cs (view t)).1)
  unfolding run mean
  run_means [] t h = (refl, refl)
  run_means (c ∷ cs) t h =
      let ih = run_means cs (perform c t).1 (perform-IsValid c t h) in
      let same = view-perform c t h in
      (
        cc (perform_reply c t, ih.0, ap (λ f. (mean cs f).0) same),
        ih.1 ∙ ap (λ f. (mean cs f).1) same,
      )
