-- ===== src/Channel/Tables.antt =====
-- An epoll whose interest list is a function of the descriptor, for runs of the programs of timerfd.
-- Nothing here models code of the repository.
use algo.Prelude.{
  ℕ, ◌≡◌, ◌≢◌, refl, arith, Option, none, some, ◌==◌, if◌then◌else◌, ==_refl, ==_ne, ap, subst, sym,
}
use algo.Channel.{Events, Epoll, or_same}

abbrev pub Table : Type 0
Table = ℕ → Option (ℕ × Events)

abbrev pub put_at : Table → ℕ → Option (ℕ × Events) → Table
put_at s fd o = λ k. if fd == k then o else s k

abbrev pub new_at : Option (ℕ × Events) → Table → Option Table
new_at none s = some s
new_at (some old) s' = none

abbrev pub old_at : Option (ℕ × Events) → Table → Option Table
old_at none s = none
old_at (some old) s = some s

pub put_at-same : (s : Table) (fd : ℕ) (o : Option (ℕ × Events)) → put_at s fd o fd ≡ o
put_at-same s fd o = rw (==_refl fd) refl

pub put_at-other : (s : Table) (fd k : ℕ) (o : Option (ℕ × Events)) → k ≢ fd → put_at s fd o k ≡ s k
put_at-other s fd k o ne = rw (==_ne fd k (λ e. ne (sym e))) refl

pub new_at_eq : (o : Option (ℕ × Events)) (t s : Table) → new_at o t ≡ some s → t ≡ s
new_at_eq none t s h = ap (λ r. or_same r t) h
new_at_eq (some old) t s h = ground arith

abbrev pub tables : Epoll
tables = record {
  Interest = Table;
  add = λ s fd p e. new_at (s fd) (put_at s fd (some (p, e)));
  modify = λ s fd p e. old_at (s fd) (put_at s fd (some (p, e)));
  delete = λ s fd. old_at (s fd) (put_at s fd none);
  watched = λ s fd. s fd;
  add_ok = λ s s' fd p e h.
      let same = new_at_eq (s fd) (put_at s fd (some (p, e))) s' h in
      subst (λ t. (t fd ≡ some (p, e)) × ((k : ℕ) → k ≢ fd → t k ≡ s k)) same
        (put_at-same s fd (some (p, e)), λ k. put_at-other s fd k (some (p, e)));
  modify_ok = λ s fd p e old h. (
    put_at s fd (some (p, e)),
    rw (h) refl,
    put_at-same s fd (some (p, e)),
    λ k. put_at-other s fd k (some (p, e)),
  );
  delete_ok = λ s fd old h.
      (put_at s fd none, rw (h) refl, put_at-same s fd none, λ k. put_at-other s fd k none);
}

abbrev pub nothing_watched : Table
nothing_watched = λ fd. none
