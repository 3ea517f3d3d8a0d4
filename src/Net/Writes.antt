-- ===== src/Net/Writes.antt =====
-- What `net_write` sends (source_codes/stardictd/src/net.cpp).
use stardictd.Base.{
  ℕ, zero, suc, ◌≤◌, Bool, false, true, [], ◌∷◌, ◌++◌, append_assoc, append-nil, some, ◌≡◌, refl,
  sym, ap, ◌∙◌, arith, Bytes, take, drop, length, length-drop,
}
use stardictd.Base.Int.{ℤ, pos, negsuc}
use stardictd.Net.{write_on, net_write, net_write_str}

take++drop : (n : ℕ) (s : Bytes) → take n s ++ drop n s ≡ s
take++drop zero s = refl
take++drop (suc n) [] = refl
take++drop (suc n) (c ∷ s) = rw (take++drop n s)

module _ {W : Type 0} (write : Bytes → W → ℤ × W) where
  -- The socket took a part of the bytes from the front; all of them unless the write failed.
  abbrev pub IsSent : Bytes → Bytes → Bool × Bytes × W → Type 0
  IsSent buf wire (failed, wire', w) =
      (sent unsent : Bytes) × (buf ≡ sent ++ unsent)
      × (wire' ≡ wire ++ sent)
      × ((failed ≡ false) → unsent ≡ [])

  -- It takes a byte or more whenever it is given some.
  abbrev pub MakesProgress : Type 0
  MakesProgress = (c : ℕ) (left : Bytes) (w : W) → (n : ℕ) × ((write (c ∷ left) w).0 ≡ pos (suc n))

  prepend :
      (n : ℕ) (left wire : Bytes) (r : Bool × Bytes × W)
      → IsSent (drop n left) (wire ++ take n left) r
      → IsSent left wire r
  prepend n left wire (failed, wire', w) (sent, unsent, e, e', all) = (
    take n left ++ sent,
    unsent,
    sym (take++drop n left)
        ∙ ap (◌++◌ (take n left)) e
        ∙ sym (append_assoc (take n left) sent unsent),
    e' ∙ append_assoc wire (take n left) sent,
    all,
  )

  -- Behind a call of `write` whose count is known.
  write_on_counted :
      (fuel c : ℕ) (left wire : Bytes) (w : W) (count : ℤ)
      → ((left' wire' : Bytes) (w' : W)
          → length left' ≤ fuel
          → (r : Bool × Bytes × W) × (write_on write fuel left' wire' w' ≡ some r)
            × IsSent left' wire' r)
      → length (c ∷ left) ≤ suc fuel
      → (write (c ∷ left) w).0 ≡ count
      → (r : Bool × Bytes × W) × (write_on write (suc fuel) (c ∷ left) wire w ≡ some r)
        × IsSent (c ∷ left) wire r
  unfolding write_on
  write_on_counted fuel c left wire w (negsuc n) ih fits e = (
    (true, wire, (write (c ∷ left) w).1),
    rw (e, write_on) refl,
    ([], c ∷ left, refl, sym (append-nil wire), λ h. absurd (cc h)),
  )
  write_on_counted fuel c left wire w (pos zero) ih fits e = (
    (true, wire, (write (c ∷ left) w).1),
    rw (e, write_on) refl,
    ([], c ∷ left, refl, sym (append-nil wire), λ h. absurd (cc h)),
  )
  write_on_counted fuel c left wire w (pos (suc n)) ih fits e =
      let (r, runs, is) =
        ih (drop n left) (wire ++ c ∷ take n left) (write (c ∷ left) w).1
          (omega (arith, length-drop n left)) in
      (r, rw (e, write_on) runs, prepend (suc n) (c ∷ left) wire r is)

  write_on-IsSent :
      (fuel : ℕ) (left wire : Bytes) (w : W)
      → length left ≤ fuel
      → (r : Bool × Bytes × W) × (write_on write fuel left wire w ≡ some r) × IsSent left wire r
  unfolding write_on
  write_on-IsSent fuel [] wire w fits =
      ((false, wire, w), refl, ([], [], refl, sym (append-nil wire), λ _. refl))
  write_on-IsSent zero (c ∷ left) wire w fits = absurd (omega arith)
  write_on-IsSent (suc fuel) (c ∷ left) wire w fits =
      write_on_counted fuel c left wire w (write (c ∷ left) w).0 (write_on-IsSent fuel) fits refl

  -- Whatever counts `write` returns, `net_write` comes to an end, a part of the buffer from the
  -- front has gone to the socket, and all of it has when no failure is reported.
  pub net_write-IsSent :
      (buf wire : Bytes) (w : W)
      → (r : Bool × Bytes × W) × (net_write write buf wire w ≡ some r) × IsSent buf wire r
  unfolding net_write
  net_write-IsSent buf wire w = write_on-IsSent (length buf) buf wire w (omega arith)

  write_on-progress :
      MakesProgress
      → (fuel : ℕ) (left wire : Bytes) (w : W) → length left ≤ fuel
      → (w' : W) × (write_on write fuel left wire w ≡ some (false, wire ++ left, w'))
  unfolding write_on
  write_on-progress progress fuel [] wire w fits = (w, rw append-nil)
  write_on-progress progress zero (c ∷ left) wire w fits = absurd (omega arith)
  write_on-progress progress (suc fuel) (c ∷ left) wire w fits =
      let (n, e) = progress c left w in
      let (w', runs) =
        write_on-progress progress fuel (drop n left) (wire ++ c ∷ take n left)
          (write (c ∷ left) w).1 (omega (arith, length-drop n left)) in
      (
        w',
        rw (e, write_on)
            (rw runs
              (rw (append_assoc wire (c ∷ take n left) (drop n left), take++drop n left) refl)),
      )

  -- When every `write` takes a byte or more, however few, `net_write_str` ends without a failure and
  -- the socket has taken the whole text and its terminator.
  pub net_write_str-whole :
      MakesProgress
      → (str wire : Bytes) (w : W)
      → (w' : W) × (net_write_str write str wire w ≡ some (false, wire ++ (str ++ 0 ∷ []), w'))
  unfolding net_write_str net_write
  net_write_str-whole progress str wire w =
      write_on-progress progress (length (str ++ 0 ∷ [])) (str ++ 0 ∷ []) wire w (omega arith)
