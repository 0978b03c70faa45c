-- ===== src/Atomic/Undo.antt =====
-- `fetch_sub` takes back `fetch_add`, and the other way about, wrap-around included.
use chiya.Prelude.{ℕ, ◌<◌, ◌≡◌, ap, arith, ◌∙◌}
use chiya.Atomic.Int.{
  Scalar, bool, u8, i8, u16, i16, u32, i32, u64, i64, usize, isize, u128, i128, Fetch, add, sub,
  modulus, next_value,
}
use chiya.Atomic.Fetch.{Call, Shared, ready, alone}
use chiya.Atomic.Alone.{update_self, alone-Done}

undone :
    (t : Scalar) (x val : ℕ)
    → x < modulus t
    → val < modulus t
    → (next_value t sub (next_value t add x val) val ≡ x)
      × (next_value t add (next_value t sub x val) val ≡ x)
unfolding next_value
undone bool x val p q = omega arith
undone u8 x val p q = omega arith
undone i8 x val p q = omega arith
undone u16 x val p q = omega arith
undone i16 x val p q = omega arith
undone u32 x val p q = omega arith
undone i32 x val p q = omega arith
undone u64 x val p q = omega arith
undone i64 x val p q = omega arith
undone usize x val p q = omega arith
undone isize x val p q = omega arith
undone u128 x val p q = omega arith
undone i128 x val p q = omega arith

-- The memory after a call with no other thread.
abbrev pub after : Call → Shared → Shared
after c s = (alone 7 s (ready c)).0

abbrev pub with_fetch : Call → Fetch → Call
with_fetch c f = record c { fetch = f }

pub after-cell :
    (c : Call) (s : Shared)
    → (after c s).cells c.addr ≡ next_value c.scalar c.fetch (s.cells c.addr) c.val
after-cell c s =
    let done = alone-Done s c in
    ap (λ r. r.0.cells c.addr) done.1
    ∙ update_self s.cells c.addr (next_value c.scalar c.fetch (s.cells c.addr) c.val)

-- On patterns of the type, with no other thread, `fetch_sub` after `fetch_add` of the same number
-- leaves in the cell what was there before, and so does `fetch_add` after `fetch_sub`.
pub after-after :
    (s : Shared) (c : Call)
    → s.cells c.addr < modulus c.scalar
    → c.val < modulus c.scalar
    → ((after (with_fetch c sub) (after (with_fetch c add) s)).cells c.addr ≡ s.cells c.addr)
      × ((after (with_fetch c add) (after (with_fetch c sub) s)).cells c.addr ≡ s.cells c.addr)
after-after s c p q =
    let both = undone c.scalar (s.cells c.addr) c.val p q in
    (
      after-cell (with_fetch c sub) (after (with_fetch c add) s)
          ∙ ap (λ x. next_value c.scalar sub x c.val) (after-cell (with_fetch c add) s)
          ∙ both.0,
      after-cell (with_fetch c add) (after (with_fetch c sub) s)
          ∙ ap (λ x. next_value c.scalar add x c.val) (after-cell (with_fetch c sub) s)
          ∙ both.1,
    )
