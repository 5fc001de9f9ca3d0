-- ===== src/Logging/Logger/Clock.antt =====
-- The seconds that a thread keeps of the last line are those that it would print anew.
use pallette.Base.{
  subst, ℕ, ◌/◌, ◌%◌, ◌<◌, ◌≡◌, refl, ap, inl, inr, List, [], ◌∷◌, ◌++◌, Option, none, some, arith,
  ◌⊎◌,
}
use pallette.Base.Tests.{Option-cases, ◌==◌, Bool-cases, ==_iff}
use pallette.Base.Int.{ℤ}
use pallette.Base.Lists.{All}
use pallette.Base.Text.{codes}
use pallette.Buffer.{◌>>=◌}
use pallette.Time.Zone.{Data, Tm}
use pallette.Logging.Format.{string_format_lem, Prints}
use pallette.Logging.Logger.{
  State, micro_seconds_per_second, time_format, print_seconds, refresh, format_time,
}

abbrev suffix : Option Data → List ℕ
suffix none = codes "Z"
suffix (some tz) = []

abbrev pub texts : Option (List (List ℕ) × State) → Option (List (List ℕ))
texts none = none
texts (some r) = some r.0

module _ (gmtime : ℤ → Tm) (print_tm : Tm → List ℕ)
    (vsnprintf : (format text : List ℕ) (micro_seconds : ℕ) → ℕ → ℤ × List ℕ)
    (print_micro : ℕ → List ℕ) where
  -- What `vsnprintf` prints of a time: the seconds, a point, the micro seconds, and `Z` where the
  -- format has it.
  abbrev pub PrintsTime : Type 0
  PrintsTime =
      (tz : Option Data) (text : List ℕ) (micro : ℕ)
      → Prints (vsnprintf (time_format tz) text micro)
          (text ++ codes "." ++ print_micro micro ++ suffix tz)

  -- The text of a time, with nothing kept of another.
  pub formatted : Option Data → ℕ → Option (List ℕ)
  formatted tz now =
      print_seconds gmtime print_tm vsnprintf tz (now / micro_seconds_per_second) >>= λ text.
      some (text ++ codes "." ++ print_micro (now % micro_seconds_per_second) ++ suffix tz)

  -- Nothing was printed yet, or what is kept is what the zone gives.
  abbrev pub IsFresh : State → Type 0
  IsFresh s =
      (s.last_second ≡ 0)
      ⊎ (print_seconds gmtime print_tm vsnprintf s.time_zone s.last_second ≡ some s.time_text)

  -- The texts of several times.
  unfoldable pub format_times : State → List ℕ → Option (List (List ℕ) × State)
  format_times s [] = some ([], s)
  format_times s (t ∷ ts) = do
    r ← format_time gmtime print_tm vsnprintf s t
    q ← format_times r.1 ts
    some (r.0 ∷ q.0, q.1)

  pub all_formatted : Option Data → List ℕ → Option (List (List ℕ))
  all_formatted tz [] = some []
  all_formatted tz (t ∷ ts) = do
    text ← formatted tz t
    texts ← all_formatted tz ts
    some (text ∷ texts)

  refresh_lem :
      (s : State) (seconds : ℕ)
      → 0 < seconds
      → IsFresh s
      → refresh gmtime print_tm vsnprintf s seconds ≡ (
          print_seconds gmtime print_tm vsnprintf s.time_zone seconds >>= λ text.
          some (record s { last_second = seconds; time_text = text }))
  unfolding refresh
  refresh_lem s seconds h f = elim (Bool-cases (seconds == s.last_second)) [
    | inl same ↦
        let e = (==_iff seconds s.last_second).0 same in
        let kept = nonzero (s.last_second) (subst (λ n. 0 < n) e h) f in
        rw same (rw e (rw kept refl))
    | inr other ↦ rw other refl
  ]
    where
      nonzero : {A : Type 0} (n : ℕ) → 0 < n → (n ≡ 0) ⊎ A → A
      nonzero n p (inl z) = absurd (omega (arith, p, z))
      nonzero n p (inr a) = a

  format_time_lem :
      PrintsTime
      → (s : State) (now : ℕ) → 0 < now / micro_seconds_per_second
      → IsFresh s
      → format_time gmtime print_tm vsnprintf s now ≡ (
          print_seconds gmtime print_tm vsnprintf s.time_zone (now / micro_seconds_per_second)
          >>= λ text. some (
            text ++ codes "." ++ print_micro (now % micro_seconds_per_second) ++ suffix s.time_zone,
            record s { last_second = now / micro_seconds_per_second; time_text = text },
          ))
  unfolding format_time
  format_time_lem p s now h f =
      rw (refresh_lem s (now / micro_seconds_per_second) h f)
        (elim (Option-cases
          (print_seconds gmtime print_tm vsnprintf s.time_zone (now / micro_seconds_per_second))) [
            | inl e ↦ rw e refl
            | inr (text, e) ↦ rw e (
                rw (string_format_lem _ _ (p s.time_zone text (now % micro_seconds_per_second)) 0)
                  refl)
          ])

  formatted-some :
      (tz : Option Data) (now : ℕ) (text : List ℕ)
      → print_seconds gmtime print_tm vsnprintf tz (now / micro_seconds_per_second) ≡ some text
      → formatted tz now
        ≡ some (text ++ codes "." ++ print_micro (now % micro_seconds_per_second) ++ suffix tz)
  unfolding formatted
  formatted-some tz now text e = rw e refl

  formatted-none :
      (tz : Option Data) (now : ℕ)
      → print_seconds gmtime print_tm vsnprintf tz (now / micro_seconds_per_second) ≡ none
      → formatted tz now ≡ none
  unfolding formatted
  formatted-none tz now e = rw e refl

  -- Where `vsnprintf` prints what its formats say, the thread keeps nothing yet or the right seconds,
  -- the zone is not changed and no time is in the first second of the epoch: the texts that the thread
  -- prints for the times of its lines, in any order, each with what is kept of the line before, are
  -- those that print every time anew; one fails where the other does.
  pub format_times-all_formatted :
      PrintsTime
      → (s : State) (times : List ℕ) → IsFresh s
      → All (λ now. 0 < now / micro_seconds_per_second) times
      → texts (format_times s times) ≡ all_formatted s.time_zone times
  unfolding format_times all_formatted
  format_times-all_formatted p s [] f h = refl
  format_times-all_formatted p s (now ∷ times) f (h, hs) =
      rw (format_time_lem p s now h f)
        (elim (Option-cases
          (print_seconds gmtime print_tm vsnprintf s.time_zone (now / micro_seconds_per_second))) [
            | inl e ↦ rw e (rw (formatted-none s.time_zone now e) refl)
            | inr (text, e) ↦ rw e (
                rw (formatted-some s.time_zone now text e) (
                  consed
                    (text
                      ++ codes "."
                      ++ print_micro (now % micro_seconds_per_second)
                      ++ suffix s.time_zone)
                    (format_times
                      (record s { last_second = now / micro_seconds_per_second; time_text = text })
                      times)
                    (all_formatted s.time_zone times)
                    (format_times-all_formatted p
                      (record s { last_second = now / micro_seconds_per_second; time_text = text })
                      times (inr e) hs)))
          ])
    where
      consed :
          (x : List ℕ) (o : Option (List (List ℕ) × State)) (all : Option (List (List ℕ)))
          → texts o ≡ all
          → texts (o >>= λ q. some ((x ∷ q.0), q.1)) ≡ (all >>= λ xs. some (x ∷ xs))
      consed x none all e = ap (λ a. a >>= λ xs. some (x ∷ xs)) e
      consed x (some r) all e = ap (λ a. a >>= λ xs. some (x ∷ xs)) e
