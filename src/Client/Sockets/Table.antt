-- ===== src/Client/Sockets/Table.antt =====
-- `socket_function` and `on_poll` of src/client/state.c.
use reachard.Prelude.{
  ℕ, zero, suc, ◌+◌, ◌%◌, [], Option, none, some, ◌≡◌, refl, ℤ, pos, negsuc, ◌==◌, if◌then◌else◌,
  arith, length, find_key, replace_key, HasUniqueKeys, find_key-remove_key,
  remove_key-HasUniqueKeys, length-remove_key, length-replace_key, find_key-replace_key,
  replace_key-HasUniqueKeys, Bool-cases, inl, inr, ==_iff, is_zero, sym, ap, ◌∙◌,
}
use reachard.System.{World}
use reachard.Client.Sockets.{
  Socket, What, poll_none, poll_in, poll_out, poll_inout, poll_remove, Polls, act, add_socket,
  socket_at, socket_function, ev_bitmask,
}

abbrev pub find_socket : ℕ → Polls → Option Socket
find_socket fd polls = find_key (λ s. s.fd) fd polls.sockets

abbrev pub HasUniqueSockets : Polls → Type 0
HasUniqueSockets polls = HasUniqueKeys (λ s. s.fd) polls.sockets

-- How many structures the program holds.
abbrev pub held_sockets : Polls → ℕ
held_sockets polls = length polls.sockets + polls.closing

-- What libcurl asked for a socket, from what it was before.
abbrev pub wanted : ℕ → What → Option Socket → Option Socket
wanted fd poll_none none = some (record { fd = fd; events = 0 })
wanted fd poll_none (some s) = some s
wanted fd poll_in _ = some (record { fd = fd; events = 1 })
wanted fd poll_out _ = some (record { fd = fd; events = 2 })
wanted fd poll_inout _ = some (record { fd = fd; events = 3 })
wanted fd poll_remove _ = none

-- The mask that libcurl is told is that of the two bits of libuv's events it knows, so below 4, or
-- the bit of an error, 4, if there was one.
pub ev_bitmask-mod :
    (status : ℤ) (events : ℕ)
    → ev_bitmask status events ≡ (if is_zero status then events % 4 else 4)
unfolding ev_bitmask
ev_bitmask-mod (pos zero) events = ground arith
ev_bitmask-mod (pos (suc n)) events = ground arith
ev_bitmask-mod (negsuc n) events = refl

act-HasUniqueSockets :
    (fd : ℕ) (what : What) (polls : Polls)
    → HasUniqueSockets polls
    → HasUniqueSockets (act fd what polls)
unfolding act
act-HasUniqueSockets fd poll_none polls u = u
act-HasUniqueSockets fd poll_in polls u = replace_key-HasUniqueKeys (λ s. s.fd) _ polls.sockets u
act-HasUniqueSockets fd poll_out polls u = replace_key-HasUniqueKeys (λ s. s.fd) _ polls.sockets u
act-HasUniqueSockets fd poll_inout polls u = replace_key-HasUniqueKeys (λ s. s.fd) _ polls.sockets u
act-HasUniqueSockets fd poll_remove polls u =
    remove_key-HasUniqueKeys (λ s. s.fd) fd polls.sockets u

held_sockets-act :
    (fd : ℕ) (what : What) (polls : Polls) (s : Socket)
    → find_socket fd polls ≡ some s
    → held_sockets (act fd what polls) ≡ held_sockets polls
unfolding act
held_sockets-act fd poll_none polls s e = refl
held_sockets-act fd poll_in polls s e = omega (
  arith,
  length-replace_key (λ (s : Socket). s.fd) (record { fd = fd; events = 1 }) polls.sockets,
)
held_sockets-act fd poll_out polls s e = omega (
  arith,
  length-replace_key (λ (s : Socket). s.fd) (record { fd = fd; events = 2 }) polls.sockets,
)
held_sockets-act fd poll_inout polls s e = omega (
  arith,
  length-replace_key (λ (s : Socket). s.fd) (record { fd = fd; events = 3 }) polls.sockets,
)
held_sockets-act fd poll_remove polls s e =
    omega (arith, length-remove_key (λ (s : Socket). s.fd) fd polls.sockets s e)

find_socket-watch :
    (k : ℕ) (new : Socket) (polls : Polls) (s : Socket)
    → find_socket new.fd polls ≡ some s
    → find_key (λ s. s.fd) k (replace_key (λ s. s.fd) new polls.sockets)
      ≡ (if new.fd == k then some new else find_socket k polls)
find_socket-watch k new polls s e = elim (Bool-cases (new.fd == k)) [
  | inl d ↦
      let same : find_socket k polls ≡ some s =
        ap (λ i. find_socket i polls) (sym ((==_iff new.fd k).0 d)) ∙ e in
      find_key-replace_key (λ (s : Socket). s.fd) k new polls.sockets ∙ rw d (rw same refl)
  | inr d ↦ find_key-replace_key (λ (s : Socket). s.fd) k new polls.sockets ∙ rw d refl
]

find_socket-act :
    (fd k : ℕ) (what : What) (polls : Polls) (s : Socket)
    → HasUniqueSockets polls
    → find_socket fd polls ≡ some s
    → find_socket k (act fd what polls)
      ≡ (if fd == k then wanted fd what (find_socket fd polls) else find_socket k polls)
unfolding act
find_socket-act fd k poll_none polls s u e = elim (Bool-cases (fd == k)) [
  | inl d ↦ rw d (ap (λ i. find_socket i polls) (sym ((==_iff fd k).0 d)) ∙ e ∙ rw e refl)
  | inr d ↦ rw d refl
]
find_socket-act fd k poll_in polls s u e =
    find_socket-watch k (record { fd = fd; events = 1 }) polls s e
find_socket-act fd k poll_out polls s u e =
    find_socket-watch k (record { fd = fd; events = 2 }) polls s e
find_socket-act fd k poll_inout polls s u e =
    find_socket-watch k (record { fd = fd; events = 3 }) polls s e
find_socket-act fd k poll_remove polls s u e =
    find_key-remove_key (λ (s : Socket). s.fd) fd k polls.sockets u

-- What the socket function leaves: its code, the sockets as libcurl asked, and the blocks that the
-- structures take.
abbrev pub Served : ℕ → What → Polls → Polls → ℕ → ℕ → Type 0
Served fd what polls after before blocks =
    HasUniqueSockets after
    × ((k : ℕ)
        → find_socket k after
          ≡ (if fd == k then wanted fd what (find_socket fd polls) else find_socket k polls))
    × (blocks + held_sockets polls ≡ before + held_sockets after)

wanted_first :
    (fd : ℕ) (what : What)
    → wanted fd what (some (record { fd = fd; events = 0 })) ≡ wanted fd what none
wanted_first fd poll_none = refl
wanted_first fd poll_in = refl
wanted_first fd poll_out = refl
wanted_first fd poll_inout = refl
wanted_first fd poll_remove = refl

asked_first :
    (fd k : ℕ) (what : What) (polls : Polls)
    → find_socket fd polls ≡ none
    → let fresh = add_socket fd polls in
      (if fd == k then wanted fd what (find_socket fd fresh) else find_socket k fresh)
      ≡ (if fd == k then wanted fd what (find_socket fd polls) else find_socket k polls)
unfolding add_socket
asked_first fd k what polls e = elim (Bool-cases (fd == k)) [
  | inl d ↦ rw (d, (==_iff fd fd).1 refl) (rw e (wanted_first fd what))
  | inr d ↦ rw d refl
]

module _ {S : Type 0} where
  socket_at-Served :
      (fd : ℕ) (what : What) (polls : Polls) (w : World S) (o : Option Socket)
      → w.memory ≡ []
      → HasUniqueSockets polls
      → find_socket fd polls ≡ o
      → (after : Polls) × (blocks : ℕ) × (socket_at fd what polls o w
          ≡ some ((pos 0, after), record w { blocks = blocks }))
        × Served fd what polls after w.blocks blocks
  unfolding socket_at
  socket_at-Served fd what polls w (some s) m u e = (
    act fd what polls,
    w.blocks,
    refl,
    (
      act-HasUniqueSockets fd what polls u,
      (λ k. find_socket-act fd k what polls s u e),
      omega (arith, held_sockets-act fd what polls s e),
    ),
  )
  socket_at-Served fd what polls w none m u e =
      let fresh : Polls = add_socket fd polls in
      let there : find_socket fd fresh ≡ some (record { fd = fd; events = 0 }) = ground arith in
      (
        act fd what fresh,
        suc w.blocks,
        ground (arith, m),
        (
          act-HasUniqueSockets fd what fresh (e, u),
          (λ k.
              find_socket-act fd k what fresh (record { fd = fd; events = 0 }) (e, u) there
              ∙ asked_first fd k what polls e),
          omega (arith, held_sockets-act fd what fresh (record { fd = fd; events = 0 }) there),
        ),
      )

  -- Where no allocation fails and every socket has one structure at most, the same holds after a
  -- call of the socket function, which returns 0: the socket is polled for what libcurl asked,
  -- every other one as before, and the structures held are the blocks taken.
  pub socket_function-Served :
      (fd : ℕ) (what : What) (polls : Polls) (w : World S)
      → w.memory ≡ []
      → HasUniqueSockets polls
      → (after : Polls) × (blocks : ℕ) × (socket_function fd what polls w
          ≡ some ((pos 0, after), record w { blocks = blocks }))
        × Served fd what polls after w.blocks blocks
  unfolding socket_function
  socket_function-Served fd what polls w m u =
      socket_at-Served fd what polls w (find_socket fd polls) m u refl
