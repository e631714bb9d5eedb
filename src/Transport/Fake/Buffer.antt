-- ===== src/Transport/Fake/Buffer.antt =====
-- Reads hand out the read buffer from its front and lose no byte; the scripted transport is a `Transport`.
use sartoriuslib.Prelude.{
  ℕ, zero, suc, ◌+◌, ◌<◌, ◌≡◌, refl, some, [], ◌∷◌, ◌++◌, true, false, ap, ◌∙◌, inl, inr, arith,
  length, take, drop, take-append-drop, take-append, drop-append, length-append, length-take,
  Option-cases, ==_iff,
}
use mathlib.Core.Path.{subst}
use sartoriuslib.Prelude.Bytes.{Bytes}
use sartoriuslib.Errors.{ErrorClass}
use sartoriuslib.Errors.Result.{ok, err}
use sartoriuslib.Transport.{SerialTypes, Transport}
use sartoriuslib.Transport.Fake.{
  FakeTransport, find, starts_with, write, read_exact, read_until, drain_input, reopen, reply_bytes,
  lookup_script,
}

-- A separator at the front is the front.
starts_with_sound :
    (xs separator : Bytes)
    → starts_with xs separator ≡ true
    → take (length separator) xs ≡ separator
starts_with_sound xs [] h = refl
starts_with_sound [] (s ∷ separator) h = cc
starts_with_sound (x ∷ xs) (s ∷ separator) h =
    ground (arith, ==_iff x s, starts_with_sound xs separator)

-- A separator that is found behind the first byte is found in the rest.
find-later :
    (x : ℕ) (xs separator : Bytes) (i : ℕ)
    → find (x ∷ xs) separator ≡ some (suc i)
    → (find xs separator ≡ some i) × (starts_with (x ∷ xs) separator ≡ false)
unfolding find
find-later x xs separator i h = elim (Option-cases (find xs separator)) [
  | inl e ↦ ground arith
  | inr (k, e) ↦ ground arith
]

find-here : (xs separator : Bytes) → find xs separator ≡ some 0 → starts_with xs separator ≡ true
unfolding find
find-here [] separator h = ground arith
find-here (x ∷ xs) separator h = elim (Option-cases (find xs separator)) [
  | inl e ↦ ground arith
  | inr (k, e) ↦ ground arith
]

find-nil : (separator : Bytes) (i : ℕ) → find [] separator ≡ some i → i ≡ 0
unfolding find
find-nil separator i h = ground arith

find_at :
    (xs separator : Bytes) (i : ℕ)
    → find xs separator ≡ some i
    → take (length separator) (drop i xs) ≡ separator
find_at xs separator zero h = starts_with_sound xs separator (find-here xs separator h)
find_at [] separator (suc i) h = absurd (omega (arith, find-nil separator (suc i) h))
find_at (x ∷ xs) separator (suc i) h = find_at xs separator i (find-later x xs separator i h).0

find_first :
    (xs separator : Bytes) (i j : ℕ)
    → find xs separator ≡ some i
    → j < i
    → starts_with (drop j xs) separator ≡ false
find_first xs separator zero j h lt = elim lt [ ]
find_first [] separator (suc i) j h lt = absurd (omega (arith, find-nil separator (suc i) h))
find_first (x ∷ xs) separator (suc i) zero h lt = (find-later x xs separator i h).1
find_first (x ∷ xs) separator (suc i) (suc j) h lt =
    find_first xs separator i j (find-later x xs separator i h).0 (omega arith)

module _ {k : SerialTypes} (s : FakeTransport k) (out : Bytes) where
  -- A read of the scripted transport that succeeds returns the front of the buffer and leaves the rest, and
  -- returns as many bytes as were asked for.
  pub read_exact-conserves :
      (n : ℕ)
      → (read_exact n s).0 ≡ ok out
      → (out ++ (read_exact n s).1.read_buffer ≡ s.read_buffer) × (length out ≡ n)
  unfolding read_exact
  read_exact-conserves n h =
      ground (arith, take-append-drop n s.read_buffer, length-take n s.read_buffer)

  -- `read_until` returns the front of the buffer through the first separator, and leaves the rest.
  pub read_until-conserves :
      (separator : Bytes)
      → (read_until separator s).0 ≡ ok out
      → (i : ℕ) × (out ++ (read_until separator s).1.read_buffer ≡ s.read_buffer)
        × (out ≡ take (i + length separator) s.read_buffer)
        × (take (length separator) (drop i s.read_buffer) ≡ separator)
        × ((j : ℕ) → j < i → starts_with (drop j s.read_buffer) separator ≡ false)
  unfolding read_until
  read_until-conserves separator h = elim (Option-cases (find s.read_buffer separator)) [
    | inl e ↦ absurd (ground arith)
    | inr (i, e) ↦ (
      i,
      ground (arith, take-append-drop (i + length separator) s.read_buffer),
      ground arith,
      find_at s.read_buffer separator i e,
      λ j lt. find_first s.read_buffer separator i j e lt,
    )
  ]

module _ {k : SerialTypes} (s : FakeTransport k) (c : ErrorClass) where
  -- A read that raises leaves the transport as it was, so a partial reply stays for the next call.
  pub read_exact_error : (n : ℕ) → (read_exact n s).0 ≡ err c → (read_exact n s).1 ≡ s
  unfolding read_exact
  read_exact_error n h = ground arith

  pub read_until_error :
      (separator : Bytes) → (read_until separator s).0 ≡ err c → (read_until separator s).1 ≡ s
  unfolding read_until
  read_until_error separator h = elim (Option-cases (find s.read_buffer separator)) [
    | inl e ↦ ground arith
    | inr (i, e) ↦ ground arith
  ]

-- Reading writes nothing.
pub read_until-writes :
    {k : SerialTypes} (s : FakeTransport k) (separator : Bytes)
    → (read_until separator s).1.writes ≡ s.writes
unfolding read_until
read_until-writes s separator = elim (Option-cases (find s.read_buffer separator)) [
  | inl e ↦ ground arith
  | inr (i, e) ↦ ground arith
]

abbrev pub fake_transport : (k : SerialTypes) → Transport k (FakeTransport k)
fake_transport k = record {
  write = write;
  read_exact = read_exact;
  read_until = read_until;
  drain_input = drain_input;
  reopen = reopen;
  read_exact_length = λ n s out h. (read_exact-conserves s out n h).1;
}

-- A transport on which no failure is forced.
pub record IsQuiet {k : SerialTypes} (s : FakeTransport k) : Type 0 where
  pub opened : s.is_open ≡ true
  pub reads : s.forces_read_timeout ≡ false
  pub writes : s.forces_write_timeout ≡ false

module _ {k : SerialTypes} (s : FakeTransport k) (quiet : IsQuiet s) where
  pub read_exact-front :
      (n : ℕ) (xs ys : Bytes)
      → s.read_buffer ≡ xs ++ ys
      → length xs ≡ n
      → read_exact n s ≡ (ok xs, record s { read_buffer = ys })
  unfolding read_exact
  read_exact-front n xs ys e h =
      let front : take n s.read_buffer ≡ xs =
        ap (take n) e ∙ subst (λ m. take m (xs ++ ys) ≡ xs) h (take-append xs ys) in
      let back : drop n s.read_buffer ≡ ys =
        ap (drop n) e ∙ subst (λ m. drop m (xs ++ ys) ≡ ys) h (drop-append xs ys) in
      let size : length s.read_buffer ≡ n + length ys =
        ap length e ∙ length-append xs ys ∙ ap (λ m. m + length ys) h in
      rw (quiet.opened, quiet.reads) (ground (arith, front, back, size))

  pub write-answer :
      (request answer : Bytes)
      → reply_bytes (lookup_script s.script request) request ≡ answer
      → write request s ≡ (
        ok tt,
        record s { writes = s.writes ++ request ∷ []; read_buffer = s.read_buffer ++ answer },
      )
  unfolding write
  write-answer request answer e = ground arith
