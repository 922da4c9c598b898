-- ===== src/Ycsb/CommandLine/Options.antt =====
-- Which command lines workloads/YCSB-C/ycsbc.cc takes.
use ltram_policy_bench.Prelude.{
  ◌≡◌, ◌≢◌, ◌⊎◌, ◌∙◌, refl, sym, ap, List, [], ◌∷◌, true, Option, none, some, arith, inl, inr,
  Bool-cases, Option-cases,
}
use ltram_policy_bench.Ycsb.Text.{Bytes, str_eq, str_eq_iff}
use ltram_policy_bench.Ycsb.Properties.{Properties, set_property, load_text}
use ltram_policy_bench.Ycsb.CommandLine.{
  Parsed, parsed, uncaught, str_start_with, threads, db, host, port, slaves, file, threadcount,
  dbname, Flag, property, load_file, unknown, flag_of, parse_args, parse_command_line,
}

-- One option with its argument.
pub data Choice : Type 0 where
  of_threads of_db of_host of_port of_slaves of_file : Bytes → Choice

unfoldable pub spell : List Choice → List Bytes
spell [] = []
spell (of_threads v ∷ os) = threads ∷ v ∷ spell os
spell (of_db v ∷ os) = db ∷ v ∷ spell os
spell (of_host v ∷ os) = host ∷ v ∷ spell os
spell (of_port v ∷ os) = port ∷ v ∷ spell os
spell (of_slaves v ∷ os) = slaves ∷ v ∷ spell os
spell (of_file v ∷ os) = file ∷ v ∷ spell os

named :
    (arg word v : Bytes) (os : List Choice)
    → str_eq arg word ≡ true
    → word ∷ v ∷ spell os ≡ arg ∷ v ∷ spell os
named arg word v os h = ap (λ w. w ∷ v ∷ spell os) (sym ((str_eq_iff arg word).0 h))

module _ (contents : Bytes → Option Bytes) where
  -- The options one after the other; the last file names the run.
  unfoldable pub effect : List Choice → Bytes → Properties → Parsed
  effect [] name ps = parsed name ps
  effect (of_threads v ∷ os) name ps = effect os name (set_property threadcount v ps)
  effect (of_db v ∷ os) name ps = effect os name (set_property dbname v ps)
  effect (of_host v ∷ os) name ps =
      effect os name (set_property (b'h' ∷ b'o' ∷ b's' ∷ b't' ∷ []) v ps)
  effect (of_port v ∷ os) name ps =
      effect os name (set_property (b'p' ∷ b'o' ∷ b'r' ∷ b't' ∷ []) v ps)
  effect (of_slaves v ∷ os) name ps =
      effect os name (set_property (b's' ∷ b'l' ∷ b'a' ∷ b'v' ∷ b'e' ∷ b's' ∷ []) v ps)
  effect (of_file v ∷ os) name ps = elim (contents v) [
    | none ↦ uncaught
    | some text ↦ effect os v (load_text text ps)
  ]

  loads :
      (v : Bytes) (args : List Bytes) (name : Bytes) (ps : Properties)
      → parse_args contents (file ∷ v ∷ args) name ps ≡ (elim (contents v) [
        | none ↦ uncaught
        | some text ↦ parse_args contents args v (load_text text ps)
      ])
  unfolding parse_args flag_of str_eq str_start_with
  loads v args name ps = refl

  sets :
      (arg key v : Bytes) (args : List Bytes) (name : Bytes) (ps : Properties)
      → str_start_with arg (b'-' ∷ []) ≡ true
      → flag_of arg ≡ property key
      → parse_args contents (arg ∷ v ∷ args) name ps
        ≡ parse_args contents args name (set_property key v ps)
  unfolding parse_args
  sets arg key v args name ps s f = rw (s, f) refl

  effect-file :
      (v : Bytes) (os : List Choice) (name : Bytes) (ps : Properties)
      → effect (of_file v ∷ os) name ps
        ≡ (elim (contents v) [ none ↦ uncaught | some text ↦ effect os v (load_text text ps) ])
  unfolding effect
  effect-file v os name ps = refl

  parse_args-spell :
      (os : List Choice) (name : Bytes) (ps : Properties)
      → parse_args contents (spell os) name ps ≡ effect os name ps
  unfolding parse_args spell effect flag_of str_eq str_start_with
  parse_args-spell [] name ps = refl
  parse_args-spell (of_threads v ∷ os) name ps =
      parse_args-spell os name (set_property threadcount v ps)
  parse_args-spell (of_db v ∷ os) name ps = parse_args-spell os name (set_property dbname v ps)
  parse_args-spell (of_host v ∷ os) name ps =
      parse_args-spell os name (set_property (b'h' ∷ b'o' ∷ b's' ∷ b't' ∷ []) v ps)
  parse_args-spell (of_port v ∷ os) name ps =
      parse_args-spell os name (set_property (b'p' ∷ b'o' ∷ b'r' ∷ b't' ∷ []) v ps)
  parse_args-spell (of_slaves v ∷ os) name ps =
      parse_args-spell os name (set_property (b's' ∷ b'l' ∷ b'a' ∷ b'v' ∷ b'e' ∷ b's' ∷ []) v ps)
  parse_args-spell (of_file v ∷ os) name ps = elim (Option-cases (contents v)) [
    | inl e ↦ ground (arith, loads v (spell os) name ps, effect-file v os name ps)
    | inr (text, e) ↦ ground (
      arith,
      loads v (spell os) name ps,
      effect-file v os name ps,
      parse_args-spell os v (load_text text ps),
    )
  ]

  -- A list of options, at least one, has the effects of the options in their order: a property is
  -- set to the argument, a file is loaded over what was set before, and a file that does not open
  -- ends the program by an exception.
  pub parse_command_line-spell :
      (o : Choice) (os : List Choice) (ps : Properties)
      → parse_command_line contents (spell (o ∷ os)) ps ≡ effect (o ∷ os) [] ps
  unfolding parse_command_line spell
  parse_command_line-spell (of_threads v) os ps = parse_args-spell (of_threads v ∷ os) [] ps
  parse_command_line-spell (of_db v) os ps = parse_args-spell (of_db v ∷ os) [] ps
  parse_command_line-spell (of_host v) os ps = parse_args-spell (of_host v ∷ os) [] ps
  parse_command_line-spell (of_port v) os ps = parse_args-spell (of_port v ∷ os) [] ps
  parse_command_line-spell (of_slaves v) os ps = parse_args-spell (of_slaves v ∷ os) [] ps
  parse_command_line-spell (of_file v) os ps = parse_args-spell (of_file v ∷ os) [] ps

Flag-cases : (f : Flag) → (f ≡ unknown) ⊎ (((key : Bytes) × (f ≡ property key)) ⊎ (f ≡ load_file))
Flag-cases unknown = inl refl
Flag-cases (property key) = inr (inl (key, refl))
Flag-cases load_file = inr (inr refl)

-- An option that is known is one of the six.
chosen :
    (arg v : Bytes)
    → flag_of arg ≢ unknown
    → (o : Choice) × ((os : List Choice) → spell (o ∷ os) ≡ arg ∷ v ∷ spell os)
unfolding flag_of spell
chosen arg v k = elim (Bool-cases (str_eq arg threads)) [
  | inl h ↦ (of_threads v, λ os. named arg threads v os h)
  | inr h₁ ↦ elim (Bool-cases (str_eq arg db)) [
    | inl h ↦ (of_db v, λ os. named arg db v os h)
    | inr h₂ ↦ elim (Bool-cases (str_eq arg host)) [
      | inl h ↦ (of_host v, λ os. named arg host v os h)
      | inr h₃ ↦ elim (Bool-cases (str_eq arg port)) [
        | inl h ↦ (of_port v, λ os. named arg port v os h)
        | inr h₄ ↦ elim (Bool-cases (str_eq arg slaves)) [
          | inl h ↦ (of_slaves v, λ os. named arg slaves v os h)
          | inr h₅ ↦ elim (Bool-cases (str_eq arg file)) [
            | inl h ↦ (of_file v, λ os. named arg file v os h)
            | inr h₆ ↦ absurd (k (ground arith))
          ]
        ]
      ]
    ]
  ]
]

module _ (contents : Bytes → Option Bytes) where
  goes_on :
      (arg v : Bytes) (args : List Bytes) (name name' : Bytes) (ps ps' : Properties)
      → parse_args contents (arg ∷ v ∷ args) name ps ≡ parsed name' ps'
      → (flag_of arg ≢ unknown)
        × (n : Bytes) × (q : Properties) × (parse_args contents args n q ≡ parsed name' ps')
  unfolding parse_args
  goes_on arg v args name name' ps ps' h = elim (Bool-cases (str_start_with arg (b'-' ∷ []))) [
    | inr s ↦ absurd (ground arith)
    | inl s ↦ elim (Flag-cases (flag_of arg)) [
      | inl e ↦ absurd (ground arith)
      | inr (inl (key, e)) ↦ (λ u. absurd (ground arith), name, set_property key v ps, ground arith)
      | inr (inr e) ↦ elim (Option-cases (contents v)) [
        | inl f ↦ absurd (ground arith)
        | inr (text, f) ↦ (λ u. absurd (ground arith), v, load_text text ps, ground arith)
      ]
    ]
  ]

  spelled_args :
      (args : List Bytes) (name name' : Bytes) (ps ps' : Properties)
      → parse_args contents args name ps ≡ parsed name' ps'
      → (os : List Choice) × (spell os ≡ args)
  unfolding parse_args spell
  spelled_args [] name name' ps ps' h = ([], refl)
  spelled_args (arg ∷ []) name name' ps ps' h = absurd (ground arith)
  spelled_args (arg ∷ v ∷ args) name name' ps ps' h =
      let (known, n, q, more) = goes_on arg v args name name' ps ps' h in
      let (os, rest) = spelled_args args n name' q ps' more in
      let (o, one) = chosen arg v known in (o ∷ os, one os ∙ ap (λ l. arg ∷ v ∷ l) rest)

  -- The program goes on only after a list of options, each with its argument, and at least one:
  -- after any other command line it stops.
  pub parse_command_line-parsed :
      (args : List Bytes) (ps ps' : Properties) (name : Bytes)
      → parse_command_line contents args ps ≡ parsed name ps'
      → (os : List Choice) × (spell os ≡ args) × (os ≢ [])
  unfolding parse_command_line spell
  parse_command_line-parsed [] ps ps' name h = absurd (ground arith)
  parse_command_line-parsed (arg ∷ args) ps ps' name h =
      let (os, e) = spelled_args (arg ∷ args) [] name ps ps' h in
      (os, e, λ nil. absurd (ground arith))
