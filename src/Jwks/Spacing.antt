-- ===== src/Jwks/Spacing.antt =====
-- auth/jwks/jwks.go: how close together the refreshes by `KeyFunc` are.
use api_security_sdk.Common.{
  ℕ, ◌+◌, ◌≤◌, ◌≡◌, ◌≢◌, ◌∙◌, refl, Bool, true, false, List, [], ◌∷◌, arith, All, inl, inr,
  if◌then◌else◌,
}
use api_security_sdk.Common.Int.{pos}
use api_security_sdk.Common.Table.{Table}
use api_security_sdk.Jwt.{Token}
use api_security_sdk.Jwks.Key.{PublicKey}
use api_security_sdk.Jwks.{Source, Clock, since, above, fetch, preload, key_func}
use api_security_sdk.Jwks.Reach.{IsClock, key_func_source, fetch_cases, ends_later}

-- A refresh: who made it, when its request was sent, and when its keys were taken over.
pub record Refresh : Type 0 where
  pub by_key_func : Bool
  pub sent : ℕ
  pub taken : ℕ

-- Calls one after the other, the last of which has ended at a time, with the refreshes so far, the
-- latest first: the calls that changed the source.
pub data Run (order : Table PublicKey → Table PublicKey) (s0 : Source)
    : List Refresh → ℕ → Source → Type 0 where
  made : (now : ℕ) → s0.last_refresh_at ≤ now → Run order s0 [] now s0
  answered :
      {log : List Refresh} {now : ℕ} {s : Source}
      → Run order s0 log now s
      → (at : Clock) → IsClock now at
      → (token : Token) → (key_func order at s token).1 ≡ s
      → Run order s0 log at.again s
  refreshed :
      {log : List Refresh} {now : ℕ} {s : Source}
      → Run order s0 log now s
      → (at : Clock) → IsClock now at
      → (token : Token) → (key_func order at s token).1 ≢ s
      → Run order s0
          (record { by_key_func = true; sent = at.sent; taken = at.marked } ∷ log)
          at.again
          (key_func order at s token).1
  not_loaded :
      {log : List Refresh} {now : ℕ} {s : Source}
      → Run order s0 log now s
      → (at : Clock) → IsClock now at
      → (preload at s).1 ≡ s
      → Run order s0 log at.again s
  preloaded :
      {log : List Refresh} {now : ℕ} {s : Source}
      → Run order s0 log now s
      → (at : Clock) → IsClock now at
      → (preload at s).1 ≢ s
      → Run order s0
          (record { by_key_func = false; sent = at.sent; taken = at.marked } ∷ log)
          at.again
          (preload at s).1

-- Each refresh by `KeyFunc` was sent the delay, or longer, after each earlier refresh was taken
-- over.
unfoldable pub Spaced : ℕ → List Refresh → Type 0
Spaced d [] = Unit
Spaced d (r ∷ log) =
    (if r.by_key_func then All (λ earlier. earlier.taken + d ≤ r.sent) log else Unit) × Spaced d log

above_pos : (t from d : ℕ) → from ≤ t → above (pos d) (since t from) ≡ false → d + from ≤ t
above_pos t from d before late = ground arith

Taken : ℕ → List Refresh → Type 0
Taken t = All (λ r. r.taken ≤ t)

Taken-later : (t u : ℕ) (log : List Refresh) → t ≤ u → Taken t log → Taken u log
unfolding Taken
Taken-later t u [] h _ = tt
Taken-later t u (r ∷ log) h (first, rest) = (omega arith, Taken-later t u log h rest)

Taken-delay :
    (t d sent : ℕ) (log : List Refresh)
    → d + t ≤ sent
    → Taken t log
    → All (λ earlier. earlier.taken + d ≤ sent) log
unfolding Taken
Taken-delay t d sent [] h _ = tt
Taken-delay t d sent (r ∷ log) h (first, rest) = (omega arith, Taken-delay t d sent log h rest)

-- What holds of the source of a run.
record IsLogged (s0 : Source) (log : List Refresh) (now : ℕ) (s : Source) : Type 0 where
  same_delay : s.min_refresh_delay ≡ s0.min_refresh_delay
  past : s.last_refresh_at ≤ now
  taken : Taken s.last_refresh_at log

-- The source behind a refresh.
record IsRefreshed (at : Clock) (s s' : Source) : Type 0 where
  same_delay : s'.min_refresh_delay ≡ s.min_refresh_delay
  date : s'.last_refresh_at ≡ at.marked

fetch-IsRefreshed : (at : Clock) (s : Source) → (fetch at s).1 ≢ s → IsRefreshed at s (fetch at s).1
fetch-IsRefreshed at s changed = elim (fetch_cases at s) [
  | inl (kept, _, _) ↦ absurd (changed kept)
  | inr (raws, _, loaded) ↦ rw loaded (record { same_delay = refl; date = refl })
]

IsLogged-more :
    {s0 s s' : Source} {log : List Refresh} {now : ℕ} (by_key_func : Bool) (at : Clock)
    → IsClock now at
    → IsLogged s0 log now s
    → IsRefreshed at s s'
    → IsLogged s0
        (record { by_key_func = by_key_func; sent = at.sent; taken = at.marked } ∷ log)
        at.again
        s'
unfolding Taken
IsLogged-more {s = s} {s' = s'} {log = log} by_key_func at c w new =
    let date = new.date in
    record {
      same_delay = new.same_delay ∙ w.same_delay;
      past = omega (arith, date, c.ends);
      taken = (
        omega (arith, date),
        Taken-later s.last_refresh_at s'.last_refresh_at log
            (omega (arith, date, w.past, c.starts, c.asks, c.sends, c.loads, c.marks)) w.taken,
      );
    }

IsLogged-same :
    {s0 s : Source} {log : List Refresh} {now : ℕ} (at : Clock)
    → IsClock now at
    → IsLogged s0 log now s
    → IsLogged s0 log at.again s
IsLogged-same at c w = record {
  same_delay = w.same_delay;
  past = omega (arith, w.past, ends_later c);
  taken = w.taken;
}

module _ (order : Table PublicKey → Table PublicKey) where
  -- A call of `KeyFunc` that changes the source has refreshed it, behind the delay.
  key_func-IsRefreshed :
      (at : Clock) (s : Source) (token : Token)
      → (key_func order at s token).1 ≢ s
      → IsRefreshed at s (key_func order at s token).1
        × (above s.min_refresh_delay (since at.asked s.last_refresh_at) ≡ false)
  key_func-IsRefreshed at s token changed = elim (key_func_source order at s token) [
    | inl (kept, _) ↦ absurd (changed kept)
    | inr (new, late) ↦
        let changed' : (fetch at s).1 ≢ s = λ kept. changed (new ∙ kept) in
        (rw new (fetch-IsRefreshed at s changed'), late)
  ]

  Run-IsLogged :
      {s0 s : Source} {log : List Refresh} {now : ℕ}
      → Run order s0 log now s
      → IsLogged s0 log now s
  unfolding Taken preload
  Run-IsLogged (made now past) = record { same_delay = refl; past = past; taken = tt }
  Run-IsLogged (answered run at c token _) = IsLogged-same at c (Run-IsLogged run)
  Run-IsLogged (refreshed {s = s} run at c token changed) =
      IsLogged-more true at c (Run-IsLogged run) ((key_func-IsRefreshed at s token changed).0)
  Run-IsLogged (not_loaded run at c _) = IsLogged-same at c (Run-IsLogged run)
  Run-IsLogged (preloaded {s = s} run at c changed) =
      IsLogged-more false at c (Run-IsLogged run) (fetch-IsRefreshed at s changed)

  -- However `KeyFunc` and `Preload` are called one after the other, each refresh by `KeyFunc` sends
  -- its request the delay, or longer, after each earlier refresh, by either, was taken over, where a
  -- refresh is a call that changes the source. The delay is not negative, the date of the source is
  -- past at the start, and the clock does not run back.
  pub refreshes-Spaced :
      {s0 s : Source} {log : List Refresh} {now : ℕ} (d : ℕ)
      → s0.min_refresh_delay ≡ pos d
      → Run order s0 log now s
      → Spaced d log
  unfolding Spaced
  refreshes-Spaced d same (made now past) = tt
  refreshes-Spaced d same (answered run at c token _) = refreshes-Spaced d same run
  refreshes-Spaced d same (refreshed {log} {s = s} run at c token changed) =
      let w = Run-IsLogged run in
      let (_, late) = key_func-IsRefreshed at s token changed in
      let asked =
        above_pos at.asked s.last_refresh_at d (omega (arith, w.past, c.starts, c.asks))
          (rw (w.same_delay ∙ same) at late) in
      (
        Taken-delay s.last_refresh_at d at.sent log (omega (arith, asked, c.sends)) w.taken,
        refreshes-Spaced d same run,
      )
  refreshes-Spaced d same (not_loaded run at c _) = refreshes-Spaced d same run
  refreshes-Spaced d same (preloaded run at c _) = (tt, refreshes-Spaced d same run)
