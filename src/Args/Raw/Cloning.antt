-- ===== src/Args/Raw/Cloning.antt =====
-- Copies and repeated expansions of csrc/runtime/inject_helpers/ArgsRawContext.cpp: which memory a
-- context points to after them.
use msopcom.Prelude.{
  ℕ, ◌-◌, ◌≤◌, ◌≡◌, ◌≢◌, refl, sym, ap, ap₂, ◌∙◌, arith, Bool, true, false, some, ◌++◌, ◌&&◌, ◌%◌,
  map, nat_beq, nat_beq_iff, leb, ltb, if◌then◌else◌, length, take, replicate, length-replicate,
  append-nil, take-length,
}
use msopcom.Wire.{Bytes}
use msopcom.Args.Raw.{
  ArgsRawContext, Pointer, null, address, copy_of, expanded_of, RawRuntime, aligned, insert_at,
  inserted, to_device, read_at, read_args, free_args, destroy, collected, grow, insert_param,
  expand_args_at, shift_behind, retarget, clone, place, not_null,
}

-- A pointer into a vector of the object `o`.
abbrev pub IsInside : ℕ → Pointer → Type 0
IsInside o null = ⊥
IsInside o (address p) = ⊥
IsInside o (copy_of q) = q ≡ o
IsInside o (expanded_of q) = q ≡ o

-- A pointer into no object but `o`.
abbrev pub IsOwn : ℕ → Pointer → Type 0
IsOwn o null = Unit
IsOwn o (address p) = Unit
IsOwn o (copy_of q) = q ≡ o
IsOwn o (expanded_of q) = q ≡ o

nat_beq_refl : (n : ℕ) → nat_beq n n ≡ true
nat_beq_refl n = (nat_beq_iff n n).1 refl

retarget-own : (old new : ℕ) → (if nat_beq old old then new else old) ≡ new
retarget-own old new = rw (nat_beq_refl old) refl

retarget-IsOwn :
    (old new : ℕ) (p : Pointer)
    → IsOwn old p
    → old ≢ new
    → IsOwn new (retarget old new p) × (¬ IsInside old (retarget old new p))
unfolding retarget
retarget-IsOwn old new null own other = (tt, λ e. e)
retarget-IsOwn old new (address p) own other = (tt, λ e. e)
retarget-IsOwn old new (copy_of q) own other =
    let here : (if nat_beq q old then new else q) ≡ new = rw own (retarget-own old new) in
    (here, λ e. other (sym e ∙ here))
retarget-IsOwn old new (expanded_of q) own other =
    let here : (if nat_beq q old then new else q) ≡ new = rw own (retarget-own old new) in
    (here, λ e. other (sym e ∙ here))

module _ {D : Type 0} (rt : RawRuntime D) where
  read_at-clone :
      (new : ℕ) (c : ArgsRawContext) (expanded : Bytes) (d : D) (p : Pointer)
      → IsOwn c.self p
      → read_at rt (clone new c) expanded d (retarget c.self new p) ≡ read_at rt c expanded d p
  unfolding read_at clone retarget
  read_at-clone new c expanded d null own = refl
  read_at-clone new c expanded d (address p) own = refl
  read_at-clone new c expanded d (copy_of o) own =
      let old : nat_beq o c.self ≡ true = ap (λ q. nat_beq q c.self) own ∙ nat_beq_refl c.self in
      rw (old, nat_beq_refl new) refl
  read_at-clone new c expanded d (expanded_of o) own =
      let old : nat_beq o c.self ≡ true = ap (λ q. nat_beq q c.self) own ∙ nat_beq_refl c.self in
      rw (old, nat_beq_refl new) refl

  -- A clone of a context that points to no other object points to none but itself, in
  -- particular not into the object it was made from, and reads the same arguments.
  pub read_args-clone :
      (new : ℕ) (c : ArgsRawContext) (d : D)
      → IsOwn c.self c.args
      → c.self ≢ new
      → IsOwn new (clone new c).args
        × (¬ IsInside c.self (clone new c).args)
        × (read_args rt (clone new c) c.args_with_mem_info d
            ≡ read_args rt c c.args_with_mem_info d)
  unfolding read_args clone
  read_args-clone new c d own other =
      let moved = retarget-IsOwn c.self new c.args own other in
      (moved.0, moved.1, read_at-clone new c c.args_with_mem_info d c.args own)

  destroy_once :
      (p : ℕ) (c : ArgsRawContext) (d : D)
      → c.need_free ≡ true
      → c.args ≡ address p
      → destroy rt c d ≡ rt.free d (address p)
  unfolding destroy free_args
  destroy_once p c d needed e =
      let test : c.need_free && not_null c.args ≡ true = ap₂ (λ n q. n && not_null q) needed e in
      let freed : ArgsRawContext = record c { args = null; need_free = false } in
      ap (λ t. let r : ArgsRawContext × D = if t then (freed, rt.free d c.args) else (c, d) in r.1)
        test
      ∙ ap (rt.free d) e

  -- A context that has moved its arguments to the device by itself, and its clone, free the same address
  -- each when they are destroyed.
  pub destroy-clone :
      (new p : ℕ) (c : ArgsRawContext) (d : D)
      → c.need_free ≡ true
      → c.args ≡ address p
      → destroy rt c (destroy rt (clone new c) d) ≡ rt.free (rt.free d (address p)) (address p)
  unfolding clone retarget
  destroy-clone new p c d needed e =
      destroy_once p c (destroy rt (clone new c) d) needed e
      ∙ ap (λ m. rt.free m (address p))
          (destroy_once p (clone new c) d needed (ap (retarget c.self new) e))

  fill_nothing : (b : Bytes) (room : ℕ) → length b ≡ room → b ++ replicate (room - length b) 0 ≡ b
  fill_nothing b room e =
      let gap : room - length b ≡ 0 = omega arith in ap (λ n. b ++ replicate n 0) gap ∙ append-nil b

  collected_own :
      (c : ArgsRawContext) (d : D)
      → c.args ≡ expanded_of c.self
      → c.args_size ≡ length c.args_with_mem_info
      → aligned (length c.args_with_mem_info) ≡ length c.args_with_mem_info
      → collected rt c d ≡ replicate (length c.args_with_mem_info) 0
  unfolding collected read_args read_at
  collected_own c d own size whole =
      let n = length c.args_with_mem_info in
      let room : aligned c.args_size ≡ n = ap aligned size ∙ whole in
      let zeros : Bytes = replicate n 0 in
      let fits : leb n n ≡ true = ground arith in
      let in_place : (if leb (aligned c.args_size) n
            then replicate (aligned c.args_size) 0
            else rt.stale d (aligned c.args_size))
          ≡ zeros =
        ap (λ k. if leb k n then replicate k 0 else rt.stale d k) room
        ∙ ap (λ t. if t then zeros else rt.stale d n) fits in
      let held : read_at rt c zeros d c.args ≡ zeros =
        ap (read_at rt c zeros d) own
        ∙ ap (λ t. if t then take c.args_size zeros else rt.stale d c.args_size)
            (nat_beq_refl c.self)
        ∙ ap (λ k. take k zeros) (size ∙ sym (length-replicate {A = ℕ} n 0))
        ∙ take-length zeros in
      ap₂
        (λ k (z : Bytes).
          read_at rt c z d c.args ++ replicate (k - length (read_at rt c z d c.args)) 0)
        room in_place
      ∙ ap (λ (b : Bytes). b ++ replicate (n - length b) 0) held
      ∙ fill_nothing zeros n (length-replicate {A = ℕ} n 0)

  -- When `args_` points to the context's own vector of expanded arguments, of a multiple of 8 bytes and at most 1 GiB, another
  -- expansion at an offset within them succeeds, and its arguments are the parameter among zeros:
  -- the vector is cleared before it is read.
  pub expand_args_at_again :
      (offset : ℕ) (overflow : Bool) (param : Bytes) (c : ArgsRawContext) (d : D)
      → c.args ≡ expanded_of c.self
      → c.args_size ≡ length c.args_with_mem_info
      → aligned (length c.args_with_mem_info) ≡ length c.args_with_mem_info
      → length c.args_with_mem_info ≤ 1073741824
      → c.is_device_args ≡ false
      → offset ≤ length c.args_with_mem_info
      → (e : ArgsRawContext) × (expand_args_at rt offset overflow param c d
          ≡ inserted true e (some offset) d)
        × (e.args ≡ expanded_of c.self)
        × (e.args_with_mem_info
            ≡ insert_at offset param (replicate (length c.args_with_mem_info) 0))
  unfolding expand_args_at place grow insert_param to_device insert_at
  expand_args_at_again offset overflow param c d own size whole small host inside =
      let n = length c.args_with_mem_info in
      let zeros : Bytes = replicate n 0 in
      let new = insert_at offset param zeros in
      let moved = map (shift_behind offset (length param)) c.place_holder_array in
      let e : ArgsRawContext = record c {
        args = expanded_of c.self;
        args_with_mem_info = new;
        args_size = length new % 4294967296;
        place_holder_array = moved;
      } in
      let copied : collected rt c d ≡ zeros = collected_own c d own size whole in
      let allowed : ltb 1073741824 c.args_size ≡ false = ground (arith, size) in
      let held = length-replicate {A = ℕ} n 0 in
      let room : ltb (length zeros) offset ≡ false = ground (arith, held, inside) in
      let put : insert_param rt (some offset) overflow param c d
          ≡ grow rt c zeros param offset moved d =
        simp (insert_param, allowed, copied, room) in
      (e, put ∙ simp (grow, room, host), refl, refl)
