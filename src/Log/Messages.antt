-- ===== src/Log/Messages.antt =====
-- What a call of the log prints.
use confd.Prelude.{
  true, false, none, some, [], ◌∷◌, ◌++◌, ◌≡◌, refl, ap, ◌↔◌, Bool-cases, Option-cases, inl, inr,
  append_cancel_left, append_cancel_right,
}
use confd.Std.Text.{Text, codes}
use confd.Std.Fmt.{sprintf}
use confd.Std.Fmt.Plain.{has_percent, sprintf-plain, sprintf_changed}
use confd.Log.{Logrus, System, Log, format, entry, log_at, heading}

module _ (L : Logrus) (sys : System) where
  -- The log with one more line.
  abbrev pub printed : L.Level → Text → Log L → Log L
  printed level message log = record log {
    lines = log.lines ++ (format L sys log.tag level message ∷ []);
  }

  printed_injective :
      (level : L.Level) (m n : Text) (log : Log L)
      → printed level m log ≡ printed level n log
      → m ≡ n
  unfolding format
  printed_injective level m n log h =
      let lines : log.lines ++ (format L sys log.tag level m ∷ [])
          ≡ log.lines ++ (format L sys log.tag level n ∷ []) =
        ap (λ l. l.lines) h in
      let ends = append_cancel_left log.lines _ _ lines in
      let same : format L sys log.tag level m ≡ format L sys log.tag level n = cc in
      append_cancel_right m n (codes "\n")
        (append_cancel_left (heading L sys log.tag level) _ _ same)

  -- The log after an entry that passes.
  entry-printed :
      (level : L.Level) (m : Text) (log : Log L)
      → log.has_exited ≡ false
      → L.is_enabled log.level level ≡ true
      → entry L sys level m log ≡ printed level m log
  unfolding entry
  entry-printed level m log h g = rw (h, g) refl

  log_at-plain :
      (level : L.Level) (m : Text) (log : Log L)
      → log.has_exited ≡ false
      → L.is_enabled log.level level ≡ true
      → has_percent m ≡ false
      → log_at L sys level m [] log ≡ some (printed level m log)
  unfolding log_at
  log_at-plain level m log h g plain =
      rw (sprintf-plain m plain, log_at) (ap some (entry-printed level m log h g))

  printed_plain :
      (level : L.Level) (m : Text) (log : Log L)
      → log.has_exited ≡ false
      → L.is_enabled log.level level ≡ true
      → log_at L sys level m [] log ≡ some (printed level m log)
      → has_percent m ≡ false
  unfolding log_at
  printed_plain level m log h g e = elim (Bool-cases (has_percent m)) [
    | inr plain ↦ plain
    | inl p ↦ elim (Option-cases (sprintf m [])) [
      | inl q ↦ let e' : none ≡ some (printed level m log) = rw (q, log_at) at e in absurd (cc)
      | inr (out, q) ↦
          let e' : some (entry L sys level out log) ≡ some (printed level m log) =
            rw (q, log_at) at e in
          let e'' = entry-printed level out log h g in
          absurd (sprintf_changed m out p q (printed_injective level out m log cc))
    ]
  ]

  -- A message is logged as a format with no arguments, at a level that the level of the log lets
  -- pass, by a program that has not exited, and each percent sign of the message begins a directive
  -- of one letter or another percent sign, or ends the message. Then the log gets an entry with the
  -- text that `fmt.Sprintf` makes of the message, and it is an entry with the message as it stands
  -- exactly if the message has no percent sign.
  pub log_at-printed_iff :
      (level : L.Level) (m out : Text) (log : Log L)
      → log.has_exited ≡ false
      → L.is_enabled log.level level ≡ true
      → sprintf m [] ≡ some out
      → (log_at L sys level m [] log ≡ some (printed level out log))
        × ((log_at L sys level m [] log ≡ some (printed level m log)) ↔ (has_percent m ≡ false))
  unfolding log_at
  log_at-printed_iff level m out log h g made = (
    rw (made, log_at) (ap some (entry-printed level out log h g)),
    (printed_plain level m log h g, log_at-plain level m log h g),
  )
