-- ===== src/Atomic/Steps.antt =====
-- A load, and a store, of a value of several words, from one point of the code to a later one.
use chiya.Prelude.{
  ℕ, zero, suc, ◌+◌, ◌≡◌, refl, sym, ap, true, false, none, some, List, [], ◌∷◌, ◌++◌, ◌==◌, arith,
  get_elem?, set, length, length-append, append-nil, Bool-cases, inl, inr, ◌∙◌,
}
use chiya.Sync.SeqLock.{
  SeqLock, SeqLockWriteGuard, optimistic_read, validate_read, drop, try_write-none, try_write-some,
}
use chiya.Atomic.Words.{
  Cell, Loader, to_load, reading, loaded, load_step, Storer, to_store, storing, stored, store_try,
  store_step, loads, stores,
}

get_elem?-append :
    (xs ys : List ℕ) (n : ℕ) → n ≡ length xs → get_elem? (xs ++ ys) n ≡ get_elem? ys 0
get_elem?-append [] ys n e = rw e refl
get_elem?-append (x ∷ xs) ys n e = rw e (get_elem?-append xs ys (length xs) refl)

set-append :
    (xs ys : List ℕ) (y w n : ℕ) → n ≡ length xs → set (xs ++ (y ∷ ys)) n w ≡ (xs ++ (w ∷ [])) ++ ys
set-append [] ys y w n e = rw e refl
set-append (x ∷ xs) ys y w n e = rw e (ap (λ k. x ∷ k) (set-append xs ys y w (length xs) refl))

snoc-append : (xs ys : List ℕ) (w : ℕ) → (xs ++ (w ∷ [])) ++ ys ≡ xs ++ (w ∷ ys)
snoc-append [] ys w = refl
snoc-append (x ∷ xs) ys w = ap (λ k. x ∷ k) (snoc-append xs ys w)

pub loads-next :
    (n : ℕ) (s : Cell) (l : Loader) {r : Cell × Loader}
    → load_step s l ≡ r
    → loads (suc n) s l ≡ loads n r.0 r.1
unfolding loads
loads-next n s l e = ap (λ r. loads n r.0 r.1) e

pub stores-next :
    (n : ℕ) (s : Cell) (t : Storer) {r : Cell × Storer}
    → store_step s t ≡ r
    → stores (suc n) s t ≡ stores n r.0 r.1
unfolding stores
stores-next n s t e = ap (λ r. stores n r.0 r.1) e

pub reading-some :
    (s : Cell) (stamp w : ℕ) (got : List ℕ)
    → get_elem? s.words (length got) ≡ some w
    → load_step s (reading stamp got) ≡ (s, reading stamp (got ++ (w ∷ [])))
unfolding load_step
reading-some s stamp w got e = rw (e, load_step) refl

-- The words read so far are as many as those before `mid`: the next steps read `mid`.
pub reading-loads :
    (s : Cell) (before mid rest got : List ℕ) (stamp : ℕ)
    → length got ≡ length before
    → s.words ≡ before ++ (mid ++ rest)
    → loads (length mid) s (reading stamp got) ≡ (s, reading stamp (got ++ mid))
unfolding loads
reading-loads s before [] rest got stamp e words =
    ap (λ k. (s, reading stamp k)) (sym (append-nil got))
reading-loads s before (w ∷ mid) rest got stamp e words =
    let here : get_elem? s.words (length got) ≡ some w =
      rw words (get_elem?-append before (w ∷ (mid ++ rest)) (length got) e) in
    let longer : length (got ++ (w ∷ [])) ≡ length (before ++ (w ∷ [])) =
      omega (arith, length-append got (w ∷ []), length-append before (w ∷ [])) in
    loads-next (length mid) s (reading stamp got) (reading-some s stamp w got here)
    ∙ reading-loads s (before ++ (w ∷ [])) mid rest (got ++ (w ∷ [])) stamp longer
        (words ∙ sym (snoc-append before (mid ++ rest) w))
    ∙ ap (λ k. (s, reading stamp k)) (snoc-append got mid w)

pub get_elem?_end : (xs : List ℕ) (n : ℕ) → n ≡ length xs → get_elem? xs n ≡ none
get_elem?_end xs n e = ap (λ k. get_elem? k n) (sym (append-nil xs)) ∙ get_elem?-append xs [] n e

-- After the last word the stamp is compared.
pub reading-end :
    (s : Cell) (stamp : ℕ) (got : List ℕ)
    → length got ≡ length s.words
    → validate_read s.lock stamp ≡ true
    → load_step s (reading stamp got) ≡ (s, loaded got)
unfolding load_step
reading-end s stamp got e v =
    let here : get_elem? s.words (length got) ≡ none = get_elem?_end s.words (length got) e in
    rw (here, v, load_step) refl

storing-some :
    (s : Cell) (g : SeqLockWriteGuard) (value : List ℕ) (n w : ℕ)
    → get_elem? value n ≡ some w
    → store_step s (storing g value n)
      ≡ (record s { words = set s.words n w }, storing g value (suc n))
unfolding store_step
storing-some s g value n w e = rw (e, store_step) refl

storing-end :
    (s : Cell) (g : SeqLockWriteGuard) (value : List ℕ) (n : ℕ)
    → n ≡ length value
    → store_step s (storing g value n) ≡ (record s { lock = drop g s.lock }, stored)
unfolding store_step
storing-end s g value n e =
    let here : get_elem? value n ≡ none = get_elem?_end value n e in rw (here, store_step) refl

-- The words written so far are `done`: the next steps write `new` over as many others.
storing-stores :
    (lock : SeqLock) (g : SeqLockWriteGuard) (words value done old new : List ℕ) (n : ℕ)
    → n ≡ length done
    → length old ≡ length new
    → words ≡ done ++ old
    → value ≡ done ++ new
    → stores (length new) (record { words = words; lock = lock }) (storing g value n)
      ≡ (record { words = value; lock = lock }, storing g value (n + length new))
unfolding stores
storing-stores lock g words value done [] [] n e same w v =
    let more : n ≡ n + 0 = omega arith in
    ap (λ k. (record { words = k; lock = lock }, storing g value n)) (w ∙ sym v)
    ∙ ap (λ k. (record { words = value; lock = lock }, storing g value k)) more
storing-stores lock g words value done [] (y ∷ new) n e same w v = absurd (omega arith)
storing-stores lock g words value done (x ∷ old) [] n e same w v = absurd (omega arith)
storing-stores lock g words value done (x ∷ old) (y ∷ new) n e same w v =
    let s : Cell = record { words = words; lock = lock } in
    let here : get_elem? value n ≡ some y = rw v (get_elem?-append done (y ∷ new) n e) in
    let longer : suc n ≡ length (done ++ (y ∷ [])) = omega (arith, length-append done (y ∷ [])) in
    let more : suc n + length new ≡ n + suc (length new) = omega arith in
    stores-next (length new) s (storing g value n) (storing-some s g value n y here)
    ∙ storing-stores lock g (set words n y) value (done ++ (y ∷ [])) old new (suc n) longer
        (omega arith) (rw w (set-append done old x y n e)) (v ∙ sym (snoc-append done new y))
    ∙ ap (λ k. (record { words = value; lock = lock }, storing g value k)) more

pub loads-add :
    (m n : ℕ) (s : Cell) (l : Loader) → loads (m + n) s l ≡ loads n (loads m s l).0 (loads m s l).1
unfolding loads
loads-add zero n s l = let e : 0 + n ≡ n = omega arith in ap (λ k. loads k s l) e
loads-add (suc m) n s l =
    let e : suc m + n ≡ suc (m + n) = omega arith in
    ap (λ k. loads k s l) e ∙ loads-add m n (load_step s l).0 (load_step s l).1

stores-add :
    (m n : ℕ) (s : Cell) (t : Storer)
    → stores (m + n) s t ≡ stores n (stores m s t).0 (stores m s t).1
unfolding stores
stores-add zero n s t = let e : 0 + n ≡ n = omega arith in ap (λ k. stores k s t) e
stores-add (suc m) n s t =
    let e : suc m + n ≡ suc (m + n) = omega arith in
    ap (λ k. stores k s t) e ∙ stores-add m n (store_step s t).0 (store_step s t).1

abbrev pub stamped : List ℕ → ℕ → Cell
stamped words n = record { words = words; lock = record { state = n } }

stored-stays : (k : ℕ) (s : Cell) → stores k s stored ≡ (s, stored)
unfolding stores store_step
stored-stays zero s = refl
stored-stays (suc k) s = stored-stays k s

-- With the guard in hand, a store writes the whole value and leaves the stamp 3.
pub storing-all :
    (s : Cell) (value : List ℕ) (k : ℕ)
    → length s.words ≡ length value
    → stores (length value + suc k) s (storing (record { stamp = 1 }) value 0)
      ≡ (stamped value 3, stored)
unfolding drop
storing-all s value k e =
    let g : SeqLockWriteGuard = record { stamp = 1 } in
    stores-add (length value) (suc k) s (storing g value 0)
    ∙ ap (λ r. stores (suc k) r.0 r.1)
        (storing-stores s.lock g s.words value [] s.words value 0 refl e refl refl)
    ∙ stores-next k (record { words = value; lock = s.lock }) (storing g value (0 + length value))
        (storing-end (record { words = value; lock = s.lock }) g value (0 + length value)
          (omega arith))
    ∙ stored-stays k (stamped value 3)

waiting-locked :
    (s : Cell) (value : List ℕ)
    → s.lock.state == 1 ≡ true
    → store_step s (to_store value) ≡ (stamped s.words 1, storing (record { stamp = 1 }) value 0)
unfolding store_step
waiting-locked s value h =
    ap (λ r. (record s { lock = r.1 }, store_try value r.0)) (try_write-some s.lock h)

waiting-free :
    (s : Cell) (value : List ℕ)
    → s.lock.state == 1 ≡ false
    → store_step s (to_store value) ≡ (stamped s.words 1, to_store value)
unfolding store_step
waiting-free s value h =
    ap (λ r. (record s { lock = r.1 }, store_try value r.0)) (try_write-none s.lock h)

-- A store alone ends on any lock.
pub store-alone :
    (s : Cell) (value : List ℕ)
    → length s.words ≡ length value
    → stores (suc (suc (length value + 1))) s (to_store value) ≡ (stamped value 3, stored)
store-alone s value e = elim (Bool-cases (s.lock.state == 1)) [
  | inl held ↦
      let more : suc (length value + 1) ≡ length value + suc 1 = omega arith in
      stores-next (suc (length value + 1)) s (to_store value) (waiting-locked s value held)
      ∙ ap (λ k. stores k (stamped s.words 1) (storing (record { stamp = 1 }) value 0)) more
      ∙ storing-all (stamped s.words 1) value 1 e
  | inr free ↦
      stores-next (suc (length value + 1)) s (to_store value) (waiting-free s value free)
      ∙ stores-next (length value + 1) (stamped s.words 1) (to_store value)
          (waiting-locked (stamped s.words 1) value refl)
      ∙ storing-all (stamped s.words 1) value 0 e
]

pub to_load-reading :
    (s : Cell) → s.lock.state == 1 ≡ false → load_step s to_load ≡ (s, reading s.lock.state [])
unfolding load_step optimistic_read
to_load-reading s h = rw (h, optimistic_read, load_step) refl

pub validate_same : (n : ℕ) → validate_read (record { state = n }) n ≡ true
unfolding validate_read
validate_same n = ground arith

-- A load alone, where the stamp is 3.
pub load-alone :
    (words : List ℕ)
    → loads (suc (length words + 1)) (stamped words 3) to_load ≡ (stamped words 3, loaded words)
unfolding loads
load-alone words =
    let s : Cell = stamped words 3 in
    loads-next (length words + 1) s to_load (to_load-reading s refl)
    ∙ loads-add (length words) 1 s (reading 3 [])
    ∙ ap (λ r. loads 1 r.0 r.1) (reading-loads s [] words [] [] 3 refl (sym (append-nil words)))
    ∙ loads-next 0 s (reading 3 words) (reading-end s 3 words refl (validate_same 3))
