-- ===== src/Buffer/Laws.antt =====
-- Reads after writes of a byte buffer.
use plasmite.Prelude.{
  ℕ, zero, suc, ◌+◌, ◌-◌, ◌*◌, ◌/◌, ◌%◌, ◌^◌, ◌≤◌, ◌<◌, ◌≡◌, refl, ◌⊎◌, ◌∷◌, length, get_or, arith,
  IsU64, add_u64_exact, ap, ap₂, ◌∙◌,
}
use plasmite.Error.{ok}
use native.Mathlib.Nat.{add-zero, add_assoc, pow-suc}
use plasmite.Buffer.{
  Buffer, of_list, to_list, bytes_from, slice, store, copy_from_slice, to_le_bytes, from_le_bytes,
  read_u32, read_u64, write_u32, write_u64,
}

-- A slice and a copy in bounds do not panic.
pub slice-ok :
    (b : Buffer) (start end : ℕ)
    → start ≤ end
    → end ≤ b.len
    → slice b start end ≡ ok (record { len = end - start; byte = λ i. b.byte (start + i) })
unfolding slice
slice-ok b start end h k = ground arith

pub copy_from_slice-ok :
    (b : Buffer) (start end : ℕ) (src : Buffer)
    → end ≡ start + src.len
    → end ≤ b.len
    → copy_from_slice b start end src ≡ ok (store b start src.len src.byte)
unfolding copy_from_slice
copy_from_slice-ok b start end src h k = ground arith

pub length-to_le_bytes : (n x : ℕ) → length (to_le_bytes n x) ≡ n
unfolding to_le_bytes
length-to_le_bytes zero x = refl
length-to_le_bytes (suc n) x = ap suc (length-to_le_bytes n (x / 256))

-- A number depends only on the bytes that it is read from.
pub from_le_bytes_agree :
    (f g : ℕ → ℕ) (p q n : ℕ)
    → ((i : ℕ) → i < n → f (p + i) ≡ g (q + i))
    → from_le_bytes f p n ≡ from_le_bytes g q n
unfolding from_le_bytes
from_le_bytes_agree f g p q zero h = refl
from_le_bytes_agree f g p q (suc n) h =
    ap₂ (λ a r. a + 256 * r) head (from_le_bytes_agree f g (p + 1) (q + 1) n tail)
  where
    head : f p ≡ g q
    head = rw (add-zero, add-zero) at (h 0 (omega arith))

    tail : (i : ℕ) → i < n → f (p + 1 + i) ≡ g (q + 1 + i)
    tail i k = rw (add_assoc p 1 i, add_assoc q 1 i) (h (1 + i) (omega arith))

pub bytes_from_agree :
    (f g : ℕ → ℕ) (p q n : ℕ)
    → ((i : ℕ) → i < n → f (p + i) ≡ g (q + i))
    → bytes_from f p n ≡ bytes_from g q n
unfolding bytes_from
bytes_from_agree f g p q zero h = refl
bytes_from_agree f g p q (suc n) h = ap₂ ◌∷◌ head (bytes_from_agree f g (p + 1) (q + 1) n tail)
  where
    head : f p ≡ g q
    head = rw (add-zero, add-zero) at (h 0 (omega arith))

    tail : (i : ℕ) → i < n → f (p + 1 + i) ≡ g (q + 1 + i)
    tail i k = rw (add_assoc p 1 i, add_assoc q 1 i) (h (1 + i) (omega arith))

pub length-bytes_from : (f : ℕ → ℕ) (p n : ℕ) → length (bytes_from f p n) ≡ n
unfolding bytes_from
length-bytes_from f p zero = refl
length-bytes_from f p (suc n) = ap suc (length-bytes_from f (p + 1) n)

pub length-to_list : (b : Buffer) → length (to_list b) ≡ b.len
unfolding to_list
length-to_list b = length-bytes_from b.byte 0 b.len

pub to_list-slice :
    (f : ℕ → ℕ) (p k n : ℕ)
    → k ≡ n
    → to_list (record { len = k; byte = λ i. f (p + i) }) ≡ bytes_from f p n
unfolding to_list
to_list-slice f p k n e =
    bytes_from_agree (λ i. f (p + i)) f 0 p k (λ i _. ap f (omega arith)) ∙ ap (bytes_from f p) e

from-to_le_bytes_at :
    (n x p : ℕ) (f : ℕ → ℕ)
    → x < 256 ^ n
    → ((i : ℕ) → i < n → f (p + i) ≡ get_or (to_le_bytes n x) i 0)
    → from_le_bytes f p n ≡ x
unfolding from_le_bytes to_le_bytes
from-to_le_bytes_at zero x p f h k = omega arith
from-to_le_bytes_at (suc n) x p f h k =
    omega (arith, head, from-to_le_bytes_at n (x / 256) (p + 1) f fits tail)
  where
    head : f p ≡ x % 256
    head = rw add-zero at (k 0 (omega arith))

    fits : x / 256 < 256 ^ n
    fits = omega (arith, pow-suc 256 n)

    tail : (i : ℕ) → i < n → f (p + 1 + i) ≡ get_or (to_le_bytes n (x / 256)) i 0
    tail i e =
        rw (add_assoc p 1 i)
          (k (1 + i) (omega arith) ∙ ap (λ j. get_or (to_le_bytes (suc n) x) j 0) one_add)
      where
        one_add : 1 + i ≡ suc i
        one_add = omega arith

pub from-to_le_bytes :
    (n x : ℕ) → x < 256 ^ n → from_le_bytes (λ i. get_or (to_le_bytes n x) i 0) 0 n ≡ x
from-to_le_bytes n x h =
    from-to_le_bytes_at n x 0 (λ i. get_or (to_le_bytes n x) i 0) h
      (λ i _. ap (λ j. get_or (to_le_bytes n x) j 0) (omega arith))

-- A number written at `p` and not overwritten is read back.
abbrev pub put : Buffer → ℕ → ℕ → ℕ → Buffer
put b p n x = store b p n (λ i. get_or (to_le_bytes n x) i 0)

pub store_in :
    (b : Buffer) (p n i : ℕ) (f : ℕ → ℕ) → p ≤ i → i < p + n → (store b p n f).byte i ≡ f (i - p)
store_in b p n i f h k = ground arith

pub store_out :
    (b : Buffer) (p n i : ℕ) (f : ℕ → ℕ) → (i < p) ⊎ (p + n ≤ i) → (store b p n f).byte i ≡ b.byte i
store_out b p n i f h = ground arith

pub from_le_bytes-put :
    (b : Buffer) (p n x : ℕ) → x < 256 ^ n → from_le_bytes (put b p n x).byte p n ≡ x
from_le_bytes-put b p n x h = from-to_le_bytes_at n x p (put b p n x).byte h at_index
  where
    at_index : (i : ℕ) → i < n → (put b p n x).byte (p + i) ≡ get_or (to_le_bytes n x) i 0
    at_index i e =
        store_in b p n (p + i) (λ i. get_or (to_le_bytes n x) i 0) (omega arith) (omega arith)
        ∙ ap (λ j. get_or (to_le_bytes n x) j 0) (omega arith)

pub from_le_bytes-store_ne :
    (b : Buffer) (p n q m : ℕ) (f : ℕ → ℕ)
    → (q + m ≤ p) ⊎ (p + n ≤ q)
    → from_le_bytes (store b p n f).byte q m ≡ from_le_bytes b.byte q m
from_le_bytes-store_ne b p n q m f h =
    from_le_bytes_agree (store b p n f).byte b.byte q q m
      (λ i e. store_out b p n (q + i) f (omega arith))

-- In bounds a read gives the number at its offset, and a write stores it there.
module _ (b : Buffer) (p : ℕ) (sized : IsU64 b.len) where
  pub read_u32-ok : p + 4 ≤ b.len → read_u32 b p ≡ ok (from_le_bytes b.byte p 4)
  unfolding read_u32
  read_u32-ok h =
      rw (add_u64_exact p 4 (omega arith), slice-ok b p (p + 4) (omega arith) h)
        (ap ok
          (from_le_bytes_agree (λ i. b.byte (p + i)) b.byte 0 p 4 (λ i _. ap b.byte (omega arith))))

  pub write_u32-ok : (x : ℕ) → p + 4 ≤ b.len → write_u32 b p x ≡ ok (put b p 4 x)
  unfolding write_u32
  write_u32-ok x h =
      rw
        (
          add_u64_exact p 4 (omega arith),
          copy_from_slice-ok b p (p + 4) (of_list (to_le_bytes 4 x)) (sized_source x) h,
        )
        (ap (λ n. ok (store b p n (λ i. get_or (to_le_bytes 4 x) i 0))) (length-to_le_bytes 4 x))
    where
      sized_source : (x : ℕ) → p + 4 ≡ p + length (to_le_bytes 4 x)
      sized_source x = omega (arith, length-to_le_bytes 4 x)

  pub read_u64-ok : p + 8 ≤ b.len → read_u64 b p ≡ ok (from_le_bytes b.byte p 8)
  unfolding read_u64
  read_u64-ok h =
      rw (add_u64_exact p 8 (omega arith), slice-ok b p (p + 8) (omega arith) h)
        (ap ok
          (from_le_bytes_agree (λ i. b.byte (p + i)) b.byte 0 p 8 (λ i _. ap b.byte (omega arith))))

  pub write_u64-ok : (x : ℕ) → p + 8 ≤ b.len → write_u64 b p x ≡ ok (put b p 8 x)
  unfolding write_u64
  write_u64-ok x h =
      rw
        (
          add_u64_exact p 8 (omega arith),
          copy_from_slice-ok b p (p + 8) (of_list (to_le_bytes 8 x)) (sized_source x) h,
        )
        (ap (λ n. ok (store b p n (λ i. get_or (to_le_bytes 8 x) i 0))) (length-to_le_bytes 8 x))
    where
      sized_source : (x : ℕ) → p + 8 ≡ p + length (to_le_bytes 8 x)
      sized_source x = omega (arith, length-to_le_bytes 8 x)
