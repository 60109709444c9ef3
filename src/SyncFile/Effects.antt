-- ===== src/SyncFile/Effects.antt =====
-- The environment of tools/sync_file: a stream socket, and code that may wait or run into
-- undefined behaviour. Nothing here models code of the repository.
use algo.Prelude.{ℕ, ◌≤◌, ◌<◌, ◌≡◌, refl, ap, ◌∙◌, subst, suc, zero, List, [], ◌∷◌, arith}

-- What one call of recv or send meets: room for at most so many bytes (0: the peer has closed),
-- EAGAIN, or another error.
pub data Turn : Type 0 where
  ready : ℕ → Turn
  again : Turn
  broken : Turn

-- One connection: what the coming calls meet, the bytes that the peer has sent and that are not
-- yet received, and the bytes that this side has sent.
pub record Conn : Type 0 where
  pub turns : List Turn
  pub incoming : List ℕ
  pub sent : List ℕ

-- `waiting`: the call has not come back when the turns are used up.
-- `undefined`: the C++ program has undefined behaviour there.
pub data Run {ℓ} (A : Type ℓ) : Type ℓ where
  done : A → Run A
  waiting : Run A
  undefined : Run A

abbrev pub M : Type 0 → Type 0
M A = Conn → Run (A × Conn)

infixl 5 ◌>>=◌
abbrev pub ◌>>=◌ : {A B : Type 0} → M A → (A → M B) → M B
◌>>=◌ m f c = elim (m c) [ done (a, c') ↦ f a c' | waiting ↦ waiting | undefined ↦ undefined ]

abbrev pub return : {A : Type 0} → A → M A
return a c = done (a, c)

-- At least `b` of the turns that come make progress, and none before them ends the connection.
abbrev pub Supplies : ℕ → List Turn → Type 0
Supplies zero ts = Unit
Supplies (suc b) [] = ⊥
Supplies (suc b) (ready k ∷ ts) = (0 < k) × Supplies b ts
Supplies (suc b) (again ∷ ts) = Supplies (suc b) ts
Supplies (suc b) (broken ∷ ts) = ⊥

pub Supplies-mono : (b c : ℕ) (ts : List Turn) → b ≤ c → Supplies c ts → Supplies b ts
Supplies-mono zero c ts h s = tt
Supplies-mono (suc b) zero ts h s = absurd (omega arith)
Supplies-mono (suc b) (suc c) [] h s = s
Supplies-mono (suc b) (suc c) (ready k ∷ ts) h s = (s.0, Supplies-mono b c ts (omega arith) s.1)
Supplies-mono (suc b) (suc c) (again ∷ ts) h s = Supplies-mono (suc b) (suc c) ts h s
Supplies-mono (suc b) (suc c) (broken ∷ ts) h s = s

-- `m` returns `a` from `k`, leaves `incoming` and `sent`, and turns that supply `b` more.
pub record Goes {A : Type 0} (m : M A) (k : Conn) (b : ℕ) (a : A) (incoming sent : List ℕ)
    : Type 0 where
  pub turns : List Turn
  pub live : Supplies b turns
  pub runs : m k ≡ done (a, record { turns = turns; incoming = incoming; sent = sent })

pub Goes-return :
    {A : Type 0} {k : Conn} {b : ℕ} (a : A)
    → Supplies b k.turns
    → Goes (return a) k b a k.incoming k.sent
Goes-return {k} a s = record { turns = k.turns; live = s; runs = refl }

pub Goes->>= :
    {A B : Type 0} (m : M A) (f : A → M B) {k : Conn} {b c : ℕ} {a : A} {r : B}
    {incoming sent incoming' sent' : List ℕ}
    → Goes m k c a incoming sent
    → ((ts : List Turn)
        → Supplies c ts
        → Goes (f a) (record { turns = ts; incoming = incoming; sent = sent }) b r incoming' sent')
    → Goes (m >>= f) k b r incoming' sent'
Goes->>= m f {k} g next =
    let h = next g.turns g.live in
    record {
      turns = h.turns;
      live = h.live;
      runs =
          ap (λ r. elim r [ done (a, c') ↦ f a c' | waiting ↦ waiting | undefined ↦ undefined ])
            g.runs
          ∙ h.runs;
    }

-- The values that a call leaves, replaced by equal ones.
pub Goes-subst :
    {A : Type 0} {m : M A} {k : Conn} {b : ℕ} {a a' : A} {incoming incoming' sent sent' : List ℕ}
    → a ≡ a'
    → incoming ≡ incoming'
    → sent ≡ sent'
    → Goes m k b a incoming sent
    → Goes m k b a' incoming' sent'
Goes-subst {m} {k} {b} {a'} {incoming} {incoming'} {sent} p q r g =
    subst (λ o. Goes m k b a' incoming' o) r
      (subst (λ i. Goes m k b a' i sent) q (subst (λ x. Goes m k b x incoming sent) p g))

pub >>=-undefined :
    {A B : Type 0} (m : M A) (f : A → M B) {k : Conn} {c : ℕ} {a : A} {incoming sent : List ℕ}
    → Goes m k c a incoming sent
    → ((ts : List Turn)
        → Supplies c ts
        → f a (record { turns = ts; incoming = incoming; sent = sent }) ≡ undefined)
    → (m >>= f) k ≡ undefined
>>=-undefined m f {k} g next =
    ap (λ r. elim r [ done (a, c') ↦ f a c' | waiting ↦ waiting | undefined ↦ undefined ]) g.runs
    ∙ next g.turns g.live

pub >>=-undefined_left :
    {A B : Type 0} (m : M A) (f : A → M B) (k : Conn) → m k ≡ undefined → (m >>= f) k ≡ undefined
>>=-undefined_left m f k e =
    ap (λ r. elim r [ done (a, c') ↦ f a c' | waiting ↦ waiting | undefined ↦ undefined ]) e
