-- ===== src/Comm/Process.antt =====
-- csrc/core/LocalProcess.h and csrc/core/LocalProcess.cpp: how the injected process sends packets
-- to the tool and waits for its answers.
-- The client's `Write`, `Read` and `WriteWithFd` are parameters here, over a state `W`. A message
-- that does not fit the fuel gives `none`. `CheckProcessOwner` ends the process in a forked child: that is the outcome `exited`.
pub mod Sending
pub mod Waiting
use msopcom.Prelude.{
  ℕ, zero, suc, ◌+◌, Bool, true, false, not, ◌&&◌, ◌||◌, List, [], ◌∷◌, ◌++◌, Option, none, some,
  length, ltb, leb, nat_beq, take, drop, is_empty, if◌then◌else◌,
}
use msopcom.Wire.{Bytes, serialize, serialize_all}
use msopcom.Comm.{Ret, failed, done}

-- `LocalProcess`: the connection's kind, whether there is a client, and the two process ids that
-- `CheckProcessOwner` compares.
pub record Process : Type 0 where
  pub is_device_connection : Bool
  pub has_client : Bool
  pub owner_pid : ℕ
  pub pid : ℕ

pub data Ended (W : Type 0) : Type 0 where
  exited : Ended W
  returned : ℕ → W → Ret → Ended W

-- `CheckProcessOwner`: whether the process goes on.
pub check_process_owner : Process → Bool
check_process_owner p = nat_beq p.owner_pid p.pid

-- `ReserveOrderId` when no other thread runs: the next number and the one taken, 0 if none is left.
pub reserve_order_id : ℕ → ℕ × ℕ
reserve_order_id next =
    if not (nat_beq next 0) && not (nat_beq next 18446744073709551615)
    then (suc next, next)
    else (next, 0)

-- The message with the order id written into its `PacketHead`: 4 bytes of type, 4 reserved, 8 of
-- order id.
pub stamp : ℕ → Bytes → Bytes
stamp id msg = take 8 msg ++ (serialize 8 id ++ drop 16 msg)

module _ {W : Type 0} where
  -- The loop of `SendBytes` over what is left of the message.
  pub send_loop : (W → Bytes → W × Ret) → ℕ → W → Bytes → ℕ → Option (W × ℕ)
  send_loop write zero w rest total = none
  send_loop write (suc fuel) w rest total = elim (is_empty rest) [
    | true ↦ some (w, total)
    | false ↦ elim (write w rest).1 [
      | failed ↦ some ((write w rest).0, total)
      | done zero ↦ some ((write w rest).0, total)
      | done (suc n) ↦ send_loop write fuel (write w rest).0 (drop (suc n) rest) (total + suc n)
    ]
  ]

  -- `SendBytes`.
  pub send_bytes : (W → Bytes → W × Ret) → Process → ℕ → W → Bytes → Option (W × ℕ)
  send_bytes write p fuel w msg = if p.has_client then send_loop write fuel w msg 0 else some (w, 0)

  -- A result of `SendBytes` as the result of the caller.
  pub ended : ℕ → Option (W × ℕ) → Option (Ended W)
  ended next none = none
  ended next (some (w, sent)) = some (returned next w (done sent))

  -- `Notify`.
  pub notify : (W → Bytes → W × Ret) → Process → ℕ → ℕ → W → Bytes → Option (Ended W)
  unfolding check_process_owner ended
  notify write p fuel next w msg =
      if not p.is_device_connection
      then ended next (send_bytes write p fuel w msg)
      else if not (check_process_owner p)
      then some exited
      else if ltb (length msg) 16
      then some (returned next w failed)
      else let r = reserve_order_id next in
        if nat_beq r.1 0
        then some (returned r.0 w failed)
        else ended r.0 (send_bytes write p fuel w (stamp r.1 msg))

  -- `WriteAllToFd` over the state of the memory file.
  unfoldable pub write_all_to_fd : (W → Bytes → W × Ret) → ℕ → W → Bytes → Option (W × Bool)
  write_all_to_fd write zero w rest = none
  write_all_to_fd write (suc fuel) w rest = elim (is_empty rest) [
    | true ↦ some (w, true)
    | false ↦ elim (write w rest).1 [
      | failed ↦ some ((write w rest).0, false)
      | done zero ↦ some ((write w rest).0, false)
      | done (suc n) ↦ write_all_to_fd write fuel (write w rest).0 (drop (suc n) rest)
    ]
  ]

-- `PacketType::KERNEL_BINARY`, and the head that `NotifyKernelBinary` puts before the binary: the
-- packet head with its order id, and the length.
unfoldable pub kernel_head : ℕ → ℕ → Bytes → Bytes
kernel_head packet_type id elf =
    serialize_all ((4, packet_type) ∷ (4, 0) ∷ (8, id) ∷ (8, length elf) ∷ [])

module _ {W F : Type 0} where
  -- The path over a memory file: `none` where the kernel has none, the result of `WriteWithFd`
  -- when the file was filled. Only a positive result counts as sent.
  unfoldable pub send_with_fd :
      (W → Bytes → F → W × Ret)
      → (F → Bytes → F × Ret)
      → Option F
      → ℕ
      → W
      → Bytes
      → Bytes
      → Option (W × Option ℕ)
  send_with_fd with_fd file_write none fuel w head elf = some (w, none)
  send_with_fd with_fd file_write (some file) fuel w head elf =
      elim (write_all_to_fd file_write fuel file elf) [
        | none ↦ none
        | some (full, false) ↦ some (w, none)
        | some (full, true) ↦ elim (with_fd w head full).1 [
          | failed ↦ some ((with_fd w head full).0, none)
          | done zero ↦ some ((with_fd w head full).0, none)
          | done (suc n) ↦ some ((with_fd w head full).0, some (suc n))
        ]
      ]

  -- `NotifyKernelBinary` after the order id is taken.
  pub send_binary :
      (W → Bytes → W × Ret)
      → (W → Bytes → F → W × Ret)
      → (F → Bytes → F × Ret)
      → Option F
      → Process
      → ℕ
      → ℕ
      → W
      → Bytes
      → Bytes
      → Option (Ended W)
  unfolding ended
  send_binary write with_fd file_write memfd p fuel next w head elf =
      if not p.has_client
      then some (returned next w failed)
      else elim (send_with_fd with_fd file_write memfd fuel w head elf) [
        | none ↦ none
        | some (w', some n) ↦ some (returned next w' (done n))
        | some (w', none) ↦ ended next (send_bytes write p fuel w' (head ++ elf))
      ]

  -- `NotifyKernelBinary`.
  unfoldable pub notify_kernel_binary :
      (W → Bytes → W × Ret)
      → (W → Bytes → F → W × Ret)
      → (F → Bytes → F × Ret)
      → Option F
      → ℕ
      → Process
      → ℕ
      → ℕ
      → W
      → Bytes
      → Option (Ended W)
  unfolding check_process_owner send_binary
  notify_kernel_binary write with_fd file_write memfd packet_type p fuel next w elf =
      if p.is_device_connection
      then if not (check_process_owner p)
        then some exited
        else (let r = reserve_order_id next in
            if nat_beq r.1 0
            then some (returned r.0 w failed)
            else send_binary write with_fd file_write memfd p fuel r.0 w
                (kernel_head packet_type r.1 elf) elf)
      else send_binary write with_fd file_write memfd p fuel next w (kernel_head packet_type 0 elf)
          elf

module _ {W : Type 0} where
  -- The loop of `Wait`: `len` is the result of the last read, `count` the failed ones. A read that
  -- gives bytes appends them; another counts against a time-out that is not 0.
  pub wait_loop : (W → W × Ret × Bytes) → ℕ → ℕ → W → Bytes → ℕ → ℕ → Option (W × Bytes)
  wait_loop read time_out zero w msg len count = none
  wait_loop read time_out (suc fuel) w msg len count = elim (is_empty msg || nat_beq len 1024) [
    | false ↦ some (w, msg)
    | true ↦
        let r = read w in
        elim r.1 [
          | done (suc n) ↦ wait_loop read time_out fuel r.0 (msg ++ r.2) (suc n) count
          | _ ↦ elim (ltb 0 time_out) [
            | true ↦ elim (leb time_out count) [
              | true ↦ some (r.0, msg)
              | false ↦ wait_loop read time_out fuel r.0 msg 0 (suc count)
            ]
            | false ↦ wait_loop read time_out fuel r.0 msg 0 count
          ]
        ]
  ]

  -- `Wait`: the message received; its length is the result.
  pub wait : (W → W × Ret × Bytes) → Process → ℕ → ℕ → W → Option (W × Bytes)
  wait read p time_out fuel w =
      if p.has_client then wait_loop read time_out fuel w [] 0 0 else some (w, [])
