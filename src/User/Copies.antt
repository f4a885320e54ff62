-- ===== src/User/Copies.antt =====
-- What cat and ls of LinuxOS/syscalls print, from what the calls promise for a descriptor.
use linux_os.Base.{
  ℕ, zero, suc, ◌+◌, ◌≤◌, ◌<◌, ◌≡◌, refl, sym, ap, ◌∙◌, some, List, [], ◌∷◌, ◌++◌, arith, length,
  true, false, set, length-append, ◌>>=◌, ltb, lt→ltb,
}
use mathlib.Core.List.{append_assoc}
use linux_os.Base.Int.{ℤ, pos, minus_one, ◌==ℤ◌, ◌+ℤ◌}
use linux_os.User.{Syscalls, exited, store}
use linux_os.User.Programs.{cat_loop, ls_loop}

-- What a program that copies a descriptor to the screen relies on, with the buffer size of its reads.
-- `Chunks fd cs s` says that the next reads give the chunks of `cs`, one each, and then nothing, and
-- `Prints bs s s'` that from `s` to `s'` the bytes were printed.
pub record Copying {ℓ} {S : Type ℓ} (sys : Syscalls S) (size : ℕ)
    (Chunks : ℤ → List (List ℕ) → S → Type ℓ) (Prints : List ℕ → S → S → Type ℓ) : Type ℓ where
  pub read_chunk :
      (fd : ℤ) (c : List ℕ) (cs : List (List ℕ)) (buf : List ℕ) (s : S)
      → Chunks fd (c ∷ cs) s
      → size ≤ length buf
      → (rest : List ℕ) × (s' : S) × (sys.ece391_read buf fd (pos size) s
          ≡ some (pos (length c), c ++ rest, s'))
        × (length c + length rest ≡ length buf)
        × (0 < length c)
        × (length c ≤ size)
        × Chunks fd cs s'
        × Prints [] s s'
  pub read_end :
      (fd : ℤ) (buf : List ℕ) (s : S)
      → Chunks fd [] s
      → size ≤ length buf
      → (buf' : List ℕ) × (s' : S) × (sys.ece391_read buf fd (pos size) s ≡ some (pos 0, buf', s'))
        × Prints [] s s'
  -- A chunk is printed, alone or with a byte behind it.
  pub write_prints :
      (fd : ℤ) (bs rest : List ℕ) (cs : List (List ℕ)) (s : S)
      → Chunks fd cs s
      → 0 < length bs
      → length bs ≤ size + 1
      → (s' : S) × (sys.ece391_write (bs ++ rest) (pos 1) (pos (length bs)) s
          ≡ some (pos (length bs), s'))
        × Chunks fd cs s'
        × Prints bs s s'
  pub Prints-append :
      (before bs : List ℕ) (s s' s'' : S)
      → Prints before s s'
      → Prints bs s' s''
      → Prints (before ++ bs) s s''

abbrev pub concat : List (List ℕ) → List ℕ
concat [] = []
concat (c ∷ cs) = c ++ concat cs

-- Each name on a line.
abbrev pub lines : List (List ℕ) → List ℕ
lines [] = []
lines (c ∷ cs) = (c ++ b'\n' ∷ []) ++ lines cs

not_end : (n : ℕ) → 0 < n → (pos n ==ℤ pos 0 ≡ false) × (pos n ==ℤ minus_one ≡ false)
not_end n h = (ground arith, ground arith)

module _ {ℓ} {S : Type ℓ} (sys : Syscalls S) where
  cat_round :
      (rounds : ℕ) (fd : ℤ) (n : ℕ) (buf buf' : List ℕ) (s s' s'' : S)
      → 0 < n
      → sys.ece391_read buf fd (pos 1024) s ≡ some (pos n, buf', s')
      → sys.ece391_write buf' (pos 1) (pos n) s' ≡ some (pos n, s'')
      → cat_loop sys (suc rounds) fd buf s ≡ cat_loop sys rounds fd buf' s''
  unfolding cat_loop
  cat_round rounds fd n buf buf' s s' s'' positive reads writes =
      let (more, good) = not_end n positive in
      rw (reads, cat_loop) (rw (more, ◌>>=◌) (rw (good, writes) (rw (good, ◌>>=◌) refl)))

  cat_end :
      (rounds : ℕ) (fd : ℤ) (buf buf' : List ℕ) (s s' : S)
      → sys.ece391_read buf fd (pos 1024) s ≡ some (pos 0, buf', s')
      → cat_loop sys (suc rounds) fd buf s ≡ some (exited (pos 0) s')
  unfolding cat_loop
  cat_end rounds fd buf buf' s s' reads = rw (reads, cat_loop) refl

module _ {ℓ} {S : Type ℓ} (sys : Syscalls S) {Chunks : ℤ → List (List ℕ) → S → Type ℓ}
    {Prints : List ℕ → S → S → Type ℓ} where
  pub cat_loop-Prints :
      Copying sys 1024 Chunks Prints
      → (cs : List (List ℕ)) (rounds : ℕ) (fd : ℤ) (buf : List ℕ) (s : S) → Chunks fd cs s
      → 1024 ≤ length buf
      → length cs < rounds
      → (s' : S) × (cat_loop sys rounds fd buf s ≡ some (exited (pos 0) s'))
        × Prints (concat cs) s s'
  cat_loop-Prints c cs zero fd buf s left room enough = absurd (omega arith)
  cat_loop-Prints c [] (suc rounds) fd buf s left room enough =
      let (buf', s', reads, printed) = c.read_end fd buf s left room in
      (s', cat_end sys rounds fd buf buf' s s' reads, printed)
  cat_loop-Prints c (b ∷ bs) (suc rounds) fd buf s left room enough =
      let (rest, s', reads, size, positive, short, left', nothing) =
        c.read_chunk fd b bs buf s left room in
      let (s'', writes, left'', printed) =
        c.write_prints fd b rest bs s' left' positive (omega arith) in
      let (end, run, all) =
        cat_loop-Prints c bs rounds fd (b ++ rest) s'' left'' (omega (arith, length-append b rest))
          (omega arith) in
      (
        end,
        cat_round sys rounds fd (length b) buf (b ++ rest) s s' s'' positive reads writes ∙ run,
        c.Prints-append b (concat bs) s s'' end (c.Prints-append [] b s s' s'' nothing printed) all,
      )

set-append :
    (c : List ℕ) (v r : ℕ) (rest : List ℕ) → set (c ++ r ∷ rest) (length c) v ≡ c ++ v ∷ rest
set-append [] v r rest = refl
set-append (x ∷ c) v r rest = ap (λ xs. x ∷ xs) (set-append c v r rest)

-- A byte stored behind a chunk is in the memory of the buffer if there is room for it.
store_next :
    (c : List ℕ) (v : ℕ) (rest : List ℕ)
    → 0 < length rest
    → (rest' : List ℕ) × (store (c ++ rest) (pos (length c)) v ≡ some ((c ++ v ∷ []) ++ rest'))
      × (length rest' + 1 ≡ length rest)
store_next c v [] h = absurd (omega arith)
store_next c v (r ∷ rest) h =
    let inside : ltb (length c) (length (c ++ r ∷ rest)) ≡ true =
      lt→ltb _ _ (omega (arith, length-append c (r ∷ rest))) in
    (
      rest,
      rw inside (ap some (set-append c v r rest ∙ sym (append_assoc c (v ∷ []) rest))),
      omega arith,
    )

module _ {ℓ} {S : Type ℓ} (sys : Syscalls S) where
  ls_round :
      (rounds : ℕ) (fd : ℤ) (c buf buf' buf'' : List ℕ) (s s' s'' : S)
      → 0 < length c
      → sys.ece391_read buf fd (pos 32) s ≡ some (pos (length c), buf', s')
      → store buf' (pos (length c)) b'\n' ≡ some buf''
      → sys.ece391_write buf'' (pos 1) (pos (length (c ++ b'\n' ∷ []))) s'
        ≡ some (pos (length (c ++ b'\n' ∷ [])), s'')
      → ls_loop sys (suc rounds) fd buf s ≡ ls_loop sys rounds fd buf'' s''
  unfolding ls_loop ◌+ℤ◌
  ls_round rounds fd c buf buf' buf'' s s' s'' positive reads stores writes =
      let (more, good) = not_end (length c) positive in
      let longer : pos (length c) +ℤ pos 1 ≡ pos (length (c ++ b'\n' ∷ [])) =
        ground (arith, length-append c (b'\n' ∷ [])) in
      let (_, fine) =
        not_end (length (c ++ b'\n' ∷ [])) (omega (arith, length-append c (b'\n' ∷ []))) in
      rw (reads, ls_loop)
        (rw (more, ◌>>=◌)
          (rw (good, stores) (rw (longer, ◌>>=◌) (rw writes (rw (fine, ◌>>=◌) refl)))))

  ls_end :
      (rounds : ℕ) (fd : ℤ) (buf buf' : List ℕ) (s s' : S)
      → sys.ece391_read buf fd (pos 32) s ≡ some (pos 0, buf', s')
      → ls_loop sys (suc rounds) fd buf s ≡ some (exited (pos 0) s')
  unfolding ls_loop
  ls_end rounds fd buf buf' s s' reads = rw (reads, ls_loop) refl

module _ {ℓ} {S : Type ℓ} (sys : Syscalls S) {Chunks : ℤ → List (List ℕ) → S → Type ℓ}
    {Prints : List ℕ → S → S → Type ℓ} where
  pub ls_loop-Prints :
      Copying sys 32 Chunks Prints
      → (cs : List (List ℕ)) (rounds : ℕ) (fd : ℤ) (buf : List ℕ) (s : S) → Chunks fd cs s
      → 33 ≤ length buf
      → length cs < rounds
      → (s' : S) × (ls_loop sys rounds fd buf s ≡ some (exited (pos 0) s')) × Prints (lines cs) s s'
  ls_loop-Prints c cs zero fd buf s left room enough = absurd (omega arith)
  ls_loop-Prints c [] (suc rounds) fd buf s left room enough =
      let (buf', s', reads, printed) = c.read_end fd buf s left (omega arith) in
      (s', ls_end sys rounds fd buf buf' s s' reads, printed)
  ls_loop-Prints c (b ∷ bs) (suc rounds) fd buf s left room enough =
      let (rest, s', reads, size, positive, short, left', nothing) =
        c.read_chunk fd b bs buf s left (omega arith) in
      let (rest', stores, size') = store_next b b'\n' rest (omega arith) in
      let line = b ++ b'\n' ∷ [] in
      let longer : length line ≡ length b + 1 = omega (arith, length-append b (b'\n' ∷ [])) in
      let (s'', writes, left'', printed) =
        c.write_prints fd line rest' bs s' left' (omega arith) (omega arith) in
      let (end, run, all) =
        ls_loop-Prints c bs rounds fd (line ++ rest') s'' left''
          (omega (arith, length-append line rest')) (omega arith) in
      (
        end,
        ls_round sys rounds fd b buf (b ++ rest) (line ++ rest') s s' s'' positive reads stores
              writes
            ∙ run,
        c.Prints-append line (lines bs) s s'' end (c.Prints-append [] line s s' s'' nothing printed)
            all,
      )
