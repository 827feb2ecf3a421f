-- ===== src/Ring.antt =====
-- RingBuffer of Common/RingBuffer.h: the receive and send buffer of a session. `front` is read next and
-- `rear` is written next; one of the `size` bytes always stays free.
pub mod Copy
pub mod Fifo
pub mod Order
pub mod Peeking
pub mod Taking
pub mod View
mod Examples
use mo_session_server.Base.{
  ℕ, List, Option, [], ◌∷◌, ◌++◌, ◌+◌, ◌-◌, ◌%◌, some, none, if◌then◌else◌, ltb, leb, ◌==◌, length,
  ◌&&◌, not, take, drop, set, suc,
}
use mo_session_server.Base.Int.{ℤ, pos, sub_ℕ}

-- `class RingBuffer`; the bytes are of any type.
pub record Ring {ℓ} (A : Type ℓ) : Type ℓ where
  pub buffer : List A
  pub front : ℕ
  pub rear : ℕ
  pub size : ℕ

module _ {ℓ} {A : Type ℓ} where
  -- `memcpy` into a buffer at an index, and out of one
  abbrev pub copy_in : List A → ℕ → List A → List A
  copy_in buf at [] = buf
  copy_in buf at (x ∷ xs) = copy_in (set buf at x) (suc at) xs

  abbrev pub copy_out : List A → ℕ → ℕ → List A
  copy_out buf at n = take n (drop at buf)

  -- `GetBufferSize`
  unfoldable pub get_buffer_size : Ring A → ℕ
  get_buffer_size r = r.size - 1

  -- `GetUsedSize`
  unfoldable pub get_used_size : Ring A → ℕ
  get_used_size r = if leb r.front r.rear then r.rear - r.front else r.size - (r.front - r.rear)

  -- `GetFreeSize`
  unfoldable pub get_free_size : Ring A → ℕ
  get_free_size r = r.size - get_used_size r - 1

  -- The copy that goes on at the start of the buffer
  split_copy : List A → Ring A → List A
  split_copy bytes r =
      let move_byte = r.size - r.rear in
      copy_in (copy_in r.buffer r.rear (take move_byte bytes)) 0 (drop move_byte bytes)

  -- The buffer after `Enqueue`
  unfoldable pub written : List A → Ring A → List A
  unfolding split_copy
  written bytes r =
      if ltb r.rear r.front
      then copy_in r.buffer r.rear bytes
      else if leb (length bytes) (r.size - r.rear)
      then copy_in r.buffer r.rear bytes
      else split_copy bytes r

  -- `Enqueue`: each of its three branches moves the rear alike.
  unfoldable pub enqueue : List A → Ring A → ℕ × Ring A
  unfolding written
  enqueue bytes r =
      if leb (length bytes) (get_free_size r)
      then (
        length bytes,
        record r { buffer = written bytes r; rear = (r.rear + length bytes) % r.size },
      )
      else (0, r)

  -- The copies that `Dequeue` and `Peek` make
  unfoldable pub peek : ℕ → Ring A → List A
  peek n r =
      let used = get_used_size r in
      let move_byte = r.size - r.front in
      if leb n used
      then if ltb r.front r.rear
        then copy_out r.buffer r.front n
        else if leb n (r.size - r.front)
        then copy_out r.buffer r.front n
        else copy_out r.buffer r.front move_byte ++ copy_out r.buffer 0 (n - move_byte)
      else if used == 0
      then []
      else if ltb r.front r.rear
      then copy_out r.buffer r.front used
      else copy_out r.buffer r.front move_byte ++ copy_out r.buffer 0 (used - move_byte)

  -- `Dequeue`: what it copies and returns, and the front that it moves by as much
  unfoldable pub dequeue : ℕ → Ring A → List A × ℕ × Ring A
  dequeue n r =
      let used = get_used_size r in
      let got = if leb n used then n else used in
      (
        peek n r,
        got,
        if used == 0 && not (leb n used) then r else record r { front = (r.front + got) % r.size },
      )

  -- `ClearBuffer`
  unfoldable pub clear_buffer : Ring A → Ring A
  clear_buffer r = record r { front = 0; rear = 0 }

  -- `DirectEnqueueSize`
  unfoldable pub direct_enqueue_size : Ring A → ℕ
  direct_enqueue_size r =
      if ltb r.rear r.front
      then r.front - r.rear - 1
      else if r.front == 0
      then r.size - r.rear - 1
      else r.size - r.rear

  -- `DirectDequeueSize`
  unfoldable pub direct_dequeue_size : Ring A → ℕ
  direct_dequeue_size r = if ltb r.front r.rear then r.rear - r.front else r.size - r.front

  -- `MoveRear`; with `front` 0 the `else` sets `_rear` to -1, which is no index: `none`.
  unfoldable pub move_rear : ℕ → Ring A → ℤ × Option (Ring A)
  move_rear n r =
      if leb n (get_free_size r)
      then (pos n, some (record r { rear = (r.rear + n) % r.size }))
      else (
        if leb r.rear r.front
            then sub_ℕ (r.front - r.rear) 1
            else sub_ℕ ((r.size - r.rear) + r.front) 1,
        if r.front == 0 then none else some (record r { rear = r.front - 1 }),
      )

  -- `MoveFront`
  unfoldable pub move_front : ℕ → Ring A → ℕ × Ring A
  move_front n r =
      if leb n (get_used_size r) then (n, record r { front = (r.front + n) % r.size }) else (
        if leb r.front r.rear then r.rear - r.front else (r.size - r.front) + r.rear,
        record r { front = r.rear },
      )

  -- `Resize`: the new buffer has the contents that `new` gives it, `fresh`, and `_size` stays as it is.
  unfoldable pub resize : List A → Ring A → Ring A
  resize fresh r =
      let bytes = (dequeue (get_used_size r) r).0 in
      record r { buffer = copy_in fresh 0 bytes; front = 0; rear = length bytes }
