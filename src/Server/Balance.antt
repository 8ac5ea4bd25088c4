-- ===== src/Server/Balance.antt =====
-- `on_accept` of src/server_threaded.c leaks nothing and releases nothing twice.
use jia_tuan_server.Common.{
  ℕ, ◌≡◌, refl, sym, ◌≢◌, ◌⊎◌, true, false, Option, none, some, [], ◌∷◌, ◌==◌, if◌then◌else◌, arith,
  Bool-cases, inl, inr,
}
use jia_tuan_server.WorkQueue.Links.{Ptr, null}
use jia_tuan_server.Server.World.{
  Resource, socket, client, buffer, base, bufev, job, World, release, same,
}
use jia_tuan_server.Server.Client.{Client, close_client, close_and_free_client, release_member}
use jia_tuan_server.Server.Accept.{
  AcceptAnswers, base_set, set_timeout, enable_read, Queued, setnonblock, Accepted, give_up,
  accept_job, accept_bufev, accept_base, accept_buffer, accept_client, accept_answer, on_accept,
}

-- A member of the client that was acquired stands in the world, one that is NULL does not.
abbrev pub member : (Ptr → Resource) → Ptr → World → World
member kind p w = if p == null then w else kind p ∷ w

abbrev opened : Option ℕ → World → World
opened none w = w
opened (some fd) w = socket fd ∷ w

-- What a client owns, in the order in which `on_accept` acquires it.
abbrev pub owned : Client → World → World
owned c w =
    member bufev c.buf_ev
      (member base c.evbase (member buffer c.output_buffer (client c.self ∷ opened c.fd w)))

pub release_member_lem :
    (kind : Ptr → Resource) (p : Ptr) (w : World)
    → same (kind p) (kind p) ≡ true
    → release_member kind p (member kind p w) ≡ some w
unfolding release
release_member_lem kind p w e = elim (Bool-cases (p == null)) [ inl n ↦ rw n | inr n ↦ rw n (rw e) ]

pub same_refl : (a : ℕ) → (a == a) ≡ true
same_refl a = ground arith

pub release_socket :
    (n : ℕ) (self e b o : Ptr) (w : World)
    → release
        (socket n)
        (member bufev b (member base e (member buffer o (client self ∷ socket n ∷ w))))
      ≡ some (member bufev b (member base e (member buffer o (client self ∷ w))))
unfolding release
release_socket n self e b o w = ground arith

pub close_client-owned :
    (fd : Option ℕ) (self e b o : Ptr) (w : World)
    → (self == null) ≡ false
    → let c : Client = record { self = self; fd = fd; evbase = e; buf_ev = b; output_buffer = o } in
      let c' : Client = record c { fd = none } in close_client c (owned c w) ≡ some (c', owned c' w)
unfolding close_client
close_client-owned none self e b o w nonnull = rw nonnull
close_client-owned (some n) self e b o w nonnull = rw (nonnull, release_socket n self e b o w)

-- `closeAndFreeClient` releases all that the client owns, each once.
pub close_and_free_client-owned :
    (c : Client) (w : World) → c.self ≢ null → close_and_free_client c (owned c w) ≡ some w
unfolding close_and_free_client release
close_and_free_client-owned c w nonnull =
    let n : (c.self == null) ≡ false = ground arith in
    rw (n, close_client-owned c.fd c.self c.evbase c.buf_ev c.output_buffer w n)
      (rw (release_member_lem bufev c.buf_ev _ (same_refl c.buf_ev)) (
        rw (release_member_lem base c.evbase _ (same_refl c.evbase)) (
          rw (release_member_lem buffer c.output_buffer _ (same_refl c.output_buffer))
            (rw (same_refl c.self)))))

-- A client with all its members, and the three calls that configure its bufferevent.
pub record IsReady (a : AcceptAnswers) (q : Queued) : Type 0 where
  pub descriptor : q.user_data.fd ≡ a.accepted
  pub is_open : a.accepted ≢ none
  pub client_nonnull : q.user_data.self ≢ null
  pub evbase_nonnull : q.user_data.evbase ≢ null
  pub buf_ev_nonnull : q.user_data.buf_ev ≢ null
  pub buffer_nonnull : q.user_data.output_buffer ≢ null
  pub job_nonnull : q.job_at ≢ null
  pub configured :
      q.setup
      ≡ base_set q.user_data.evbase q.user_data.buf_ev
        ∷ set_timeout q.user_data.buf_ev 10 10
        ∷ enable_read q.user_data.buf_ev
        ∷ []

-- A failure with nothing left over, or a job queued and exactly the client's resources added.
abbrev pub Balanced : AcceptAnswers → World → Accepted → Type 0
Balanced a w r =
    (r ≡ some (w, none))
    ⊎ ((q : Queued) × (r ≡ some (job q.job_at ∷ owned q.user_data w, some q)) × IsReady a q)

module _ (a : AcceptAnswers) (w : World) where
  give_up-Balanced : (c : Client) → c.self ≢ null → Balanced a w (give_up c (owned c w))
  give_up-Balanced c nonnull = inl (rw (close_and_free_client-owned c w nonnull))

  -- The client of `on_accept` as its members are filled in.
  filled : Ptr → Ptr → Ptr → ℕ → Client
  filled e b o fd = record {
    self = a.client_at;
    fd = some fd;
    evbase = e;
    buf_ev = b;
    output_buffer = o;
  }

  module _ (fd : ℕ) (is : a.accepted ≡ some fd) (nonnull : a.client_at ≢ null) where
    accept_job-Balanced :
        (e b o : Ptr)
        → e ≢ null
        → b ≢ null
        → o ≢ null
        → Balanced a w (accept_job a (filled e b o fd) (owned (filled e b o fd) w))
    unfolding accept_job filled
    accept_job-Balanced e b o en bn on = elim (Bool-cases (a.job_at == null)) [
      | inl n ↦ rw n (give_up-Balanced (filled e b o fd) nonnull)
      | inr n ↦ rw n (
          inr (
            _,
            refl,
            record {
              descriptor = sym is;
              is_open = λ h. cc;
              client_nonnull = nonnull;
              evbase_nonnull = en;
              buf_ev_nonnull = bn;
              buffer_nonnull = on;
              job_nonnull = ground arith;
              configured = refl;
            },
          ))
    ]

    accept_bufev-Balanced :
        (e o : Ptr)
        → e ≢ null
        → o ≢ null
        → Balanced a w (accept_bufev a (filled e null o fd) (owned (filled e null o fd) w))
    unfolding accept_bufev filled
    accept_bufev-Balanced e o en on = elim (Bool-cases (a.bufev_at == null)) [
      | inl n ↦ rw n (give_up-Balanced (filled e null o fd) nonnull)
      | inr n ↦
          let all = accept_job-Balanced e a.bufev_at o en (ground arith) on in rw n (rw n at all)
    ]

    accept_base-Balanced :
        (o : Ptr)
        → o ≢ null
        → Balanced a w (accept_base a (filled null null o fd) (owned (filled null null o fd) w))
    unfolding accept_base filled
    accept_base-Balanced o on = elim (Bool-cases (a.base_at == null)) [
      | inl n ↦ rw n (give_up-Balanced (filled null null o fd) nonnull)
      | inr n ↦ let all = accept_bufev-Balanced a.base_at o (ground arith) on in rw n (rw n at all)
    ]

    accept_buffer-Balanced :
        Balanced a w
          (accept_buffer a (filled null null null fd) (owned (filled null null null fd) w))
    unfolding accept_buffer filled
    accept_buffer-Balanced = elim (Bool-cases (a.buffer_at == null)) [
      | inl n ↦ rw n (give_up-Balanced (filled null null null fd) nonnull)
      | inr n ↦ let all = accept_base-Balanced a.buffer_at (ground arith) in rw n (rw n at all)
    ]

  accept_client-Balanced :
      (fd : ℕ) → a.accepted ≡ some fd → Balanced a w (accept_client a fd (socket fd ∷ w))
  unfolding accept_client release filled
  accept_client-Balanced fd is = elim (Bool-cases (setnonblock a.getfl a.setfl)) [
    | inr bad ↦ rw bad (inl (rw (same_refl fd)))
    | inl fine ↦ elim (Bool-cases (a.client_at == null)) [
      | inl n ↦ rw (fine, n) (inl (rw (same_refl fd)))
      | inr n ↦ rw (fine, n) (accept_buffer-Balanced fd is (ground arith))
    ]
  ]

  accept_answer-Balanced : (o : Option ℕ) → a.accepted ≡ o → Balanced a w (accept_answer a o w)
  unfolding accept_answer
  accept_answer-Balanced none is = inl refl
  accept_answer-Balanced (some fd) is = accept_client-Balanced fd is

  -- Whatever the system answers, `on_accept` ends without a double release. Either it queues no
  -- job, and every resource that it acquired is released, or it queues one job, and what it
  -- acquired and kept is exactly that job and the descriptor, the block and the three objects of
  -- a client whose members are all set, with its bufferevent bound to its event base, given both
  -- timeouts and enabled for reading.
  pub on_accept-Balanced : Balanced a w (on_accept a w)
  unfolding on_accept
  on_accept-Balanced = accept_answer-Balanced a.accepted refl
