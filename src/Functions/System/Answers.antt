-- ===== src/Functions/System/Answers.antt =====
-- What the replies of functions/system.c tell about the requests before them.
use instruction_parser.Prelude.{
  ℕ, ◌+◌, ◌≡◌, refl, ℤ, pos, is_nonzero, some, ◌>>=◌, List, [], ◌∷◌, arith, true, ◌<◌, ◌*◌,
}
use instruction_parser.Strings.{store}
use instruction_parser.Strings.Laws.{store_in}
use instruction_parser.Protocol.Words.{word_at_lem}
use instruction_parser.Functions.System.{
  Clock, Device, hwclock_text, set_clock, set_system_date, set_date_reply,
}

module _ {E : Type 0} (system : List ℕ → E → ℤ × E) (clock : E → Clock) where
  -- If the command that sets the hardware clock fails on a request to set the date, nothing more is
  -- asked of the system, `set_system_date` returns 0, and the reply is the one byte 0.
  pub set_date-hides_failure :
      (y1 y0 mon day hour min sec r : ℕ) (rest reply : List ℕ) (d : Device E) (status : ℤ) (e : E)
      → y1 < 256
      → y0 < 256
      → system (hwclock_text (y1 * 256 + y0) mon day hour min sec) d.outside ≡ (status, e)
      → is_nonzero status ≡ true
      → (d' : Device E) × (set_system_date system clock
            (1 ∷ y1 ∷ y0 ∷ mon ∷ day ∷ hour ∷ min ∷ sec ∷ rest)
            d
          ≡ some (pos 0, d'))
        × (set_date_reply (r ∷ reply) d' ≡ some (pos 1, 0 ∷ reply, d'))
        × (d'.outside ≡ e)
  unfolding set_system_date set_clock set_date_reply
  set_date-hides_failure y1 y0 mon day hour min sec r rest reply d status e h1 h0 runs fails =
      let stored : store (r ∷ reply) 0 (0 ∷ []) ≡ some (0 ∷ reply) =
        store_in (r ∷ reply) 0 (0 ∷ []) (omega arith) in
      (
        record d { mode = 1; outside = e },
        rw (
          word_at_lem (1 ∷ y1 ∷ y0 ∷ mon ∷ day ∷ hour ∷ min ∷ sec ∷ rest) 1 y1 y0 refl refl h1 h0,
          ◌>>=◌,
          runs,
          fails,
        ),
        rw (stored, ◌>>=◌),
        refl,
      )
