-- ===== src/Install/Upload/Rising.antt =====
-- Reports that rise, and the writes of one file.
use native.Mathlib.Nat.{div-le_of_le-mul}
use i_phone_loadly.Common.{
  ℕ, ◌≡◌, refl, sym, ap, subst, ◌≤◌, ◌+◌, ◌*◌, ◌/◌, Text, Bool, true, false, not, ◌==◌, leb, ltb,
  Option, none, some, List, [], ◌∷◌, ◌++◌, length, Result, ok, err, ok-injective, Bool-cases, inl,
  inr, if-intro, arith, codes, is_empty,
}
use i_phone_loadly.Install.Upload.{
  Bytes, Call, reports, writes, installs, Traced, Progress, write_chunks, upload_progress_percent,
  after, risen, sent, and_then,
}

upload_progress_percent_most :
    (bytes_sent total : ℕ) → upload_progress_percent bytes_sent total ≤ 85
unfolding upload_progress_percent
upload_progress_percent_most bytes_sent total =
    if-intro (λ n. n ≤ 85) (total == 0) (λ _. omega arith)
      λ _.
        scaled
          (if-intro (λ n. n ≤ total) (leb bytes_sent total) (λ e. ground arith) (λ _. omega arith))
  where
    scaled : {n : ℕ} → n ≤ total → 40 + n * 45 / total ≤ 85
    scaled {n} h =
        let small = div-le_of_le-mul total {m = n * 45} {n = 45} (omega arith) in omega arith

-- neither a report nor the install command
abbrev pub is_plain : Call → Bool
is_plain (reports _) = false
is_plain (installs _) = false
is_plain _ = true

-- The kind of an error is not empty, which stands for no error.
abbrev pub IsNamed : Result Text Progress → Type 0
IsNamed (err kind) = is_empty kind ≡ false
IsNamed (ok _) = Unit

-- The reports of the calls rise, from one percent to another, none is above `cap`, and no command is
-- sent.
pub data Rises (cap : ℕ) : ℕ → List Call → ℕ → Type 0 where
  nothing : (low : ℕ) → Rises cap low [] low
  report :
      (low n high : ℕ) {calls : List Call}
      → low ≤ n
      → n ≤ cap
      → Rises cap n calls high
      → Rises cap low (reports n ∷ calls) high
  other :
      (low high : ℕ) (call : Call) {calls : List Call}
      → is_plain call ≡ true
      → Rises cap low calls high
      → Rises cap low (call ∷ calls) high

pub Rises-append :
    (cap low middle high : ℕ) {calls more : List Call}
    → Rises cap low calls middle
    → Rises cap middle more high
    → Rises cap low (calls ++ more) high
Rises-append cap low middle high (nothing _) g = g
Rises-append cap low middle high (report _ n _ a b f) g =
    report low n high a b (Rises-append cap n middle high f g)
Rises-append cap low middle high (other _ _ call a f) g =
    other low high call a (Rises-append cap low middle high f g)

pub bound-Rises :
    (cap low high : ℕ) {calls : List Call} → low ≤ cap → Rises cap low calls high → high ≤ cap
bound-Rises cap low high h (nothing _) = h
bound-Rises cap low high h (report _ n _ a b f) = bound-Rises cap n high b f
bound-Rises cap low high h (other _ _ call a f) = bound-Rises cap low high h f

-- A traced result whose calls rise to the percent that it keeps, if it is one.
abbrev pub Climbs : ℕ → Traced Progress → Type 0
Climbs low r =
    (high : ℕ) × Rises 85 low r.1 high
    × IsNamed r.0
    × ((q : Progress) → r.0 ≡ ok q → q.last_percent ≡ high)

pub refused : (low : ℕ) (e : Text) → is_empty e ≡ false → Climbs low (err e, [])
refused low e n = (low, nothing low, n, λ q h. absurd (cc h))

pub refused-after :
    (low : ℕ) (e : Text) (call : Call)
    → is_empty e ≡ false
    → is_plain call ≡ true
    → Climbs low (err e, call ∷ [])
refused-after low e call n s = (low, other low low call s (nothing low), n, λ q h. absurd (cc h))

pub after-Climbs :
    (low middle : ℕ) (calls : List Call) (r : Traced Progress)
    → Rises 85 low calls middle
    → Climbs middle r
    → Climbs low (after calls r)
after-Climbs low middle calls r f (high, g, n, kept) =
    (high, Rises-append 85 low middle high f g, n, kept)

pub and_then-Climbs :
    (low : ℕ) (r : Traced Progress) (next : Progress → Traced Progress)
    → Climbs low r
    → ((q : Progress) → Climbs q.last_percent (next q))
    → Climbs low (and_then r next)
and_then-Climbs low (err e, calls) next (high, f, n, _) g = (high, f, n, λ q h. absurd (cc h))
and_then-Climbs low (ok a, calls) next (high, f, _, kept) g =
    after-Climbs low high calls (next a) f (subst (λ l. Climbs l (next a)) (kept a refl) (g a))

risen-Rises :
    (total : ℕ) (chunk : Bytes) (p : Progress)
    → Rises 85 p.last_percent (risen total chunk p) (sent total chunk p).last_percent
risen-Rises total chunk p =
    let percent = upload_progress_percent (p.bytes_sent + length chunk) total in
    elim (Bool-cases (ltb p.last_percent percent)) [
      | inl e ↦ rw e (
          report p.last_percent percent percent (ground arith)
            (upload_progress_percent_most (p.bytes_sent + length chunk) total) (nothing percent))
      | inr e ↦ rw e (nothing p.last_percent)
    ]

pub write_chunks-Climbs :
    (size total : ℕ) (takes : ℕ → Bool) (reads : List (Option Bytes)) (turn : ℕ) (p : Progress)
    → Climbs p.last_percent (write_chunks size total takes reads turn p)
unfolding write_chunks
write_chunks-Climbs size total takes [] turn p = (
  p.last_percent,
  nothing p.last_percent,
  tt,
  λ q h. ap Progress.last_percent (sym (ok-injective h)),
)
write_chunks-Climbs size total takes (none ∷ reads) turn p =
    refused p.last_percent (codes "source_read") refl
write_chunks-Climbs size total takes (some [] ∷ reads) turn p = (
  p.last_percent,
  nothing p.last_percent,
  tt,
  λ q h. ap Progress.last_percent (sym (ok-injective h)),
)
write_chunks-Climbs size total takes (some (byte ∷ bytes) ∷ reads) turn p =
    let chunk = byte ∷ bytes in
    if-intro (Climbs p.last_percent) (ltb size (length (p.content ++ chunk)))
      (λ _. refused p.last_percent (codes "source_changed") refl)
      λ _.
        if-intro (Climbs p.last_percent) (not (takes turn))
          (λ _. refused-after p.last_percent (codes "staging_file_write") (writes chunk) refl refl)
          λ _.
            after-Climbs p.last_percent (sent total chunk p).last_percent
              (writes chunk ∷ risen total chunk p)
              (write_chunks size total takes reads (turn + 1) (sent total chunk p))
              (other _ _ (writes chunk) refl (risen-Rises total chunk p))
              (write_chunks-Climbs size total takes reads (turn + 1) (sent total chunk p))
