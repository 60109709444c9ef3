-- ===== src/Channel.antt =====
-- ChannelTimer (timerfd/timer_channel.h and timer_channel.cpp) and EpollTimer
-- (timerfd/timer_epoll.cpp), over the kernel's epoll as a parameter.
pub mod Laws
pub mod Loop
pub mod Tables
mod Examples
use algo.Prelude.{
  ℕ, ◌≡◌, ◌≢◌, Bool, true, false, not, ◌&&◌, ◌||◌, Option, none, some, List, [], ◌∷◌, ◌++◌, ◌==◌,
  if◌then◌else◌,
}

-- An event mask: EPOLLIN, EPOLLPRI, EPOLLOUT, EPOLLERR, EPOLLHUP, EPOLLRDHUP, and what its other
-- bits are as a number.
pub record Events : Type 0 where
  pub readable : Bool
  pub priority : Bool
  pub writable : Bool
  pub err : Bool
  pub hup : Bool
  pub rdhup : Bool
  pub others : ℕ

abbrev pub no_events : Events
no_events = record {
  readable = false;
  priority = false;
  writable = false;
  err = false;
  hup = false;
  rdhup = false;
  others = 0;
}

-- The callbacks that a channel may have set.
pub data Callback : Type 0 where
  on_close on_error on_read on_write : Callback

pub record ChannelTimer : Type 0 where
  pub fd : ℕ
  pub events : Events
  pub revents : Events
  pub in_epoll : Bool
  pub has_callback : Callback → Bool

abbrev pub fresh_channel : ℕ → ChannelTimer
fresh_channel fd = record {
  fd = fd;
  events = no_events;
  revents = no_events;
  in_epoll = false;
  has_callback = λ c. false;
}

-- events_ == 0
abbrev pub is_none_event : ChannelTimer → Bool
is_none_event ch =
    let e = ch.events in
    not (e.readable || e.priority || e.writable || e.err || e.hup || e.rdhup) && (e.others == 0)

-- The kernel's epoll: what epoll_ctl does to an interest list, where none stands for -1, and
-- under which pointer and events a list has a descriptor. The laws are those of epoll_ctl(2): a
-- call that returns 0 has done its work on the one descriptor, and MOD and DEL work on a
-- descriptor that the list has.
pub record Epoll : Type 1 where
  pub Interest : Type 0
  pub add : Interest → ℕ → ℕ → Events → Option Interest
  pub modify : Interest → ℕ → ℕ → Events → Option Interest
  pub delete : Interest → ℕ → Option Interest
  pub watched : Interest → ℕ → Option (ℕ × Events)
  pub add_ok :
      (s s' : Interest) (fd p : ℕ) (e : Events)
      → add s fd p e ≡ some s'
      → (watched s' fd ≡ some (p, e)) × ((k : ℕ) → k ≢ fd → watched s' k ≡ watched s k)
  pub modify_ok :
      (s : Interest) (fd p : ℕ) (e : Events) (old : ℕ × Events)
      → watched s fd ≡ some old
      → (s' : Interest) × (modify s fd p e ≡ some s')
        × (watched s' fd ≡ some (p, e))
        × ((k : ℕ) → k ≢ fd → watched s' k ≡ watched s k)
  pub delete_ok :
      (s : Interest) (fd : ℕ) (old : ℕ × Events)
      → watched s fd ≡ some old
      → (s' : Interest) × (delete s fd ≡ some s')
        × (watched s' fd ≡ none)
        × ((k : ℕ) → k ≢ fd → watched s' k ≡ watched s k)

-- A failed call is logged and leaves the list as it was.
abbrev pub or_same {ℓ} : {A : Type ℓ} → Option A → A → A
or_same none a = a
or_same (some b) a = b

module _ (E : Epoll) where
  -- An operation takes the interest list and a channel, which stands at an address.
  unfoldable pub del_channel : E.Interest → ChannelTimer → E.Interest × ChannelTimer
  del_channel s ch =
      if ch.in_epoll
      then (or_same (E.delete s ch.fd) s, record ch { in_epoll = false })
      else (s, ch)

  unfoldable pub update_channel : E.Interest → ℕ → ChannelTimer → E.Interest × ChannelTimer
  unfolding del_channel
  update_channel s address ch =
      if ch.in_epoll
      then (if is_none_event ch
          then del_channel s ch
          else (or_same (E.modify s ch.fd address ch.events) s, ch))
      else (or_same (E.add s ch.fd address ch.events) s, record ch { in_epoll = true })

  abbrev pub with_events : ChannelTimer → Events → ChannelTimer
  with_events ch e = record ch { events = e }

  abbrev pub enable_reading : E.Interest → ℕ → ChannelTimer → E.Interest × ChannelTimer
  enable_reading s address ch =
      update_channel s address
        (with_events ch (record ch.events { readable = true; priority = true }))

  abbrev pub disable_reading : E.Interest → ℕ → ChannelTimer → E.Interest × ChannelTimer
  disable_reading s address ch =
      update_channel s address
        (with_events ch (record ch.events { readable = false; priority = false }))

  abbrev pub enable_writing : E.Interest → ℕ → ChannelTimer → E.Interest × ChannelTimer
  enable_writing s address ch =
      update_channel s address (with_events ch (record ch.events { writable = true }))

  abbrev pub disable_writing : E.Interest → ℕ → ChannelTimer → E.Interest × ChannelTimer
  disable_writing s address ch =
      update_channel s address (with_events ch (record ch.events { writable = false }))

  abbrev pub disable_all : E.Interest → ℕ → ChannelTimer → E.Interest × ChannelTimer
  disable_all s address ch = update_channel s address (with_events ch no_events)

  -- DisableAll and Remove, as TimerEventMgr::Destory calls them before it closes the descriptor.
  unfoldable pub close_channel : E.Interest → ℕ → ChannelTimer → E.Interest × ChannelTimer
  unfolding update_channel del_channel
  close_channel s address ch = let r = disable_all s address ch in del_channel r.0 r.1

-- A callback that is set is called.
abbrev pub call : ChannelTimer → Callback → List Callback
call ch c = if ch.has_callback c then c ∷ [] else []

abbrev pub when : Bool → List Callback → List Callback
when b cs = if b then cs else []

-- The callbacks that HandleEvent calls, in order.
unfoldable pub handle_event : ChannelTimer → List Callback
handle_event ch =
    let r = ch.revents in
    when (r.hup && not r.readable) (call ch on_close)
    ++ when r.err (call ch on_error)
    ++ when (r.readable || r.priority || r.rdhup) (call ch on_read)
    ++ when r.writable (call ch on_write)
