-- ===== src/Rollups/Leadership.antt =====
-- One collector leads at a time (src/modules/queue/infrastructure/state_collector.rs and
-- docs/queue-state-collector-leadership.md).

use retsu.Base.{
  ◌≤◌, ◌≡◌, ◌≢◌, ◌∙◌, refl, ap, sym, arith, true, false, not, none, some, List, [], ◌∷◌, ◌++◌, ◌⊎◌,
  subst, ok, Memᴰ, All, All-keep_if, length, ◌==◌, ==_iff, keep_if, Bool-cases, inl, inr,
}
use retsu.Postgres.Tables.{Fault, no_fault, pool_exhausted, not_executed, reply_lost}
use retsu.Rollups.Collector.{
  Connection, Lock, QueueStateCollectorLease, is_free_for, try_acquire_lease, drop_lease,
}

-- The lock in the database, the leases whose database session lives, and the leases whose session
-- has died, which their processes keep until a statement on them fails.
abbrev pub Site : Type 0
Site = Lock × List QueueStateCollectorLease × List QueueStateCollectorLease

-- The pool gives a connection that no lease holds.
abbrev pub IsIdle : Connection → List QueueStateCollectorLease → Type 0
IsIdle c = All λ lease. lease.connection ≢ c

abbrev pub on_connection :
    Connection → List QueueStateCollectorLease → List QueueStateCollectorLease
on_connection c = keep_if λ l. l.connection == c

abbrev pub off_connection :
    Connection → List QueueStateCollectorLease → List QueueStateCollectorLease
off_connection c = keep_if λ l. not (l.connection == c)

-- PostgreSQL frees the lock of a session that ends.
abbrev pub session_ended : Connection → Lock → Lock
unfolding drop_lease
session_ended c = drop_lease (record { connection = c })

-- What any number of processes, the network and the database may do to the lock.
pub data Step : Site → Site → Type 0 where
  takes :
      {lock : Lock} {leading stranded : List QueueStateCollectorLease} (f : Fault) (c : Connection)
      (lease : QueueStateCollectorLease)
      → IsIdle c leading
      → IsIdle c stranded
      → (try_acquire_lease f c lock).0 ≡ ok (some lease)
      → Step (lock, leading, stranded) ((try_acquire_lease f c lock).1, lease ∷ leading, stranded)
  misses :
      {lock : Lock} {leading stranded : List QueueStateCollectorLease} (f : Fault) (c : Connection)
      → IsIdle c leading
      → IsIdle c stranded
      → ((lease : QueueStateCollectorLease) → (try_acquire_lease f c lock).0 ≢ ok (some lease))
      → Step (lock, leading, stranded) ((try_acquire_lease f c lock).1, leading, stranded)
  dies :
      {lock : Lock} {leading stranded : List QueueStateCollectorLease} (c : Connection)
      → Step
          (lock, leading, stranded)
          (session_ended c lock, off_connection c leading, on_connection c leading ++ stranded)
  drops :
      {lock : Lock} {leading stranded : List QueueStateCollectorLease}
      (lease : QueueStateCollectorLease)
      → Memᴰ lease leading
      → Step
          (lock, leading, stranded)
          (drop_lease lease lock, off_connection lease.connection leading, stranded)
  gives_up :
      {lock : Lock} {leading stranded : List QueueStateCollectorLease}
      (lease : QueueStateCollectorLease)
      → Memᴰ lease stranded
      → Step
          (lock, leading, stranded)
          (drop_lease lease lock, leading, off_connection lease.connection stranded)

pub data Reachable : Site → Type 0 where
  starts : Reachable (none, [], [])
  moves : {a b : Site} → Reachable a → Step a b → Reachable b

-- No living lease, or one whose connection holds the lock.
abbrev Led : Lock → List QueueStateCollectorLease → Type 0
Led lock [] = Unit
Led lock (lease ∷ []) = lock ≡ some lease.connection
Led lock (lease ∷ other ∷ leases) = ⊥

-- A connection of these leases does not hold the lock.
abbrev Apart : Lock → List QueueStateCollectorLease → Type 0
Apart lock = All λ lease. lock ≢ some lease.connection

abbrev IsLed : Site → Type 0
IsLed (lock, leading, stranded) = Led lock leading × Apart lock stranded

held-locked :
    (f : Fault) (c d : Connection)
    → d ≢ c
    → ((try_acquire_lease f c (some d)).1 ≡ some d)
      × ((lease : QueueStateCollectorLease) → (try_acquire_lease f c (some d)).0 ≢ ok (some lease))
unfolding try_acquire_lease
held-locked no_fault c d n =
    let other : (d == c) ≡ false = ground (arith, ==_iff d c) in
    rw other (refl, λ lease h. absurd (cc (h)))
held-locked pool_exhausted c d n = (refl, λ lease h. absurd (cc (h)))
held-locked not_executed c d n = (refl, λ lease h. absurd (cc (h)))
held-locked reply_lost c d n =
    let other : (d == c) ≡ false = ground (arith, ==_iff d c) in
    rw other (refl, λ lease h. absurd (cc (h)))

-- A lease that the database grants is of the connection that now holds the lock.
taken :
    (f : Fault) (c : Connection) (lock : Lock) (lease : QueueStateCollectorLease)
    → (try_acquire_lease f c lock).0 ≡ ok (some lease)
    → (try_acquire_lease f c lock).1 ≡ some lease.connection
unfolding try_acquire_lease
taken no_fault c lock lease h = elim (Bool-cases (is_free_for c lock)) [
  | inl e ↦ rw e (cc (rw e at h))
  | inr e ↦ absurd (cc (rw e at h))
]
taken pool_exhausted c lock lease h = absurd cc
taken not_executed c lock lease h = absurd cc
taken reply_lost c lock lease h = absurd cc

granted :
    (f : Fault) (c : Connection) (lock : Lock) (lease : QueueStateCollectorLease)
    → (try_acquire_lease f c lock).0 ≡ ok (some lease)
    → lease.connection ≡ c
unfolding try_acquire_lease
granted no_fault c lock lease h = elim (Bool-cases (is_free_for c lock)) [
  | inl e ↦ cc (rw e at h)
  | inr e ↦ absurd (cc (rw e at h))
]
granted pool_exhausted c lock lease h = absurd cc
granted not_executed c lock lease h = absurd cc
granted reply_lost c lock lease h = absurd cc

-- An attempt leaves the lock or takes it for its connection.
attempted :
    (f : Fault) (c : Connection) (lock : Lock)
    → ((try_acquire_lease f c lock).1 ≡ lock) ⊎ ((try_acquire_lease f c lock).1 ≡ some c)
unfolding try_acquire_lease
attempted no_fault c lock = elim (Bool-cases (is_free_for c lock)) [
  | inl e ↦ inr (rw e refl)
  | inr e ↦ inl (rw e refl)
]
attempted pool_exhausted c lock = inl refl
attempted not_executed c lock = inl refl
attempted reply_lost c lock = elim (Bool-cases (is_free_for c lock)) [
  | inl e ↦ inr (rw e refl)
  | inr e ↦ inl (rw e refl)
]

dropped :
    (lease : QueueStateCollectorLease) (lock : Lock)
    → (drop_lease lease lock ≡ lock) ⊎ (drop_lease lease lock ≡ none)
unfolding drop_lease
dropped lease none = inl refl
dropped lease (some holder) = elim (Bool-cases (holder == lease.connection)) [
  | inl e ↦ inr (rw e refl)
  | inr e ↦ inl (rw e refl)
]

drop_lease-other :
    (lease : QueueStateCollectorLease) (c : Connection)
    → c ≢ lease.connection
    → drop_lease lease (some c) ≡ some c
unfolding drop_lease
drop_lease-other lease c n =
    let other : (c == lease.connection) ≡ false = ground (arith, ==_iff c lease.connection) in
    rw other refl

Apart-none : (leases : List QueueStateCollectorLease) → Apart none leases
Apart-none [] = tt
Apart-none (l ∷ ls) = (λ h. absurd (cc (h)), Apart-none ls)

Apart-idle :
    (c : Connection) (leases : List QueueStateCollectorLease)
    → IsIdle c leases
    → Apart (some c) leases
Apart-idle c [] idle = tt
Apart-idle c (l ∷ ls) idle = (λ h. idle.0 (cc (h)), Apart-idle c ls idle.1)

Apart-drop_lease :
    (lease : QueueStateCollectorLease) (lock : Lock) (leases : List QueueStateCollectorLease)
    → Apart lock leases
    → Apart (drop_lease lease lock) leases
Apart-drop_lease lease lock leases apart = elim (dropped lease lock) [
  | inl e ↦ rw e apart
  | inr e ↦ rw e (Apart-none leases)
]

Apart-attempted :
    (f : Fault) (c : Connection) (lock : Lock) (leases : List QueueStateCollectorLease)
    → IsIdle c leases
    → Apart lock leases
    → Apart (try_acquire_lease f c lock).1 leases
Apart-attempted f c lock leases idle apart = elim (attempted f c lock) [
  | inl e ↦ rw e apart
  | inr e ↦ rw e (Apart-idle c leases idle)
]

Apart-member :
    (lock : Lock) (lease : QueueStateCollectorLease) (leases : List QueueStateCollectorLease)
    → Memᴰ lease leases
    → Apart lock leases
    → lock ≢ some lease.connection
Apart-member lock lease [] m apart = elim m [ ]
Apart-member lock lease (l ∷ ls) (Memᴰ.head e) apart =
    λ h. apart.0 (h ∙ ap (λ x. some x.connection) e)
Apart-member lock lease (l ∷ ls) (Memᴰ.tail m) apart = Apart-member lock lease ls m apart.1

-- What the end of the session of `c` does to the leases.
ended-IsLed :
    (c : Connection) (lock : Lock) (leading stranded : List QueueStateCollectorLease)
    → IsLed (lock, leading, stranded)
    → IsLed (session_ended c lock, off_connection c leading, on_connection c leading ++ stranded)
unfolding drop_lease
ended-IsLed c lock [] stranded (led, apart) =
    (tt, Apart-drop_lease (record { connection = c }) lock stranded apart)
ended-IsLed c lock (l ∷ []) stranded (led, apart) = elim (Bool-cases (l.connection == c)) [
  | inl e ↦ rw (led, e) (tt, Apart-none (l ∷ stranded))
  | inr e ↦ rw (led, e) (refl, subst (λ x. Apart x stranded) led apart)
]
ended-IsLed c lock (l ∷ m ∷ ls) stranded (led, apart) = absurd led

-- A stranded lease holds no lock that its drop could free.
given_up-Led :
    (lease : QueueStateCollectorLease) (lock : Lock)
    (leading stranded : List QueueStateCollectorLease)
    → Memᴰ lease stranded
    → IsLed (lock, leading, stranded)
    → Led (drop_lease lease lock) leading
given_up-Led lease lock [] stranded m w = tt
given_up-Led lease lock (l ∷ []) stranded m (led, apart) =
    let other = Apart-member lock lease stranded m apart in
    rw led (drop_lease-other lease l.connection (λ e. other (led ∙ ap some e)))
given_up-Led lease lock (l ∷ n ∷ ls) stranded m (led, apart) = absurd led

Step-IsLed : {a b : Site} → Step a b → IsLed a → IsLed b
Step-IsLed (takes {lock} {leading = []} {stranded} f c lease idle away h) (led, apart) =
    (taken f c lock lease h, Apart-attempted f c lock stranded away apart)
Step-IsLed (takes {lock} {leading = l ∷ []} f c lease idle away h) (led, apart) = absurd (
    (held-locked f c l.connection idle.0).1 lease
      (ap (λ x. (try_acquire_lease f c x).0) (sym led) ∙ h))
Step-IsLed (takes {leading = l ∷ m ∷ ls} f c lease idle away h) (led, apart) = absurd led
Step-IsLed (misses {lock} {leading = []} {stranded} f c idle away h) (led, apart) =
    (tt, Apart-attempted f c lock stranded away apart)
Step-IsLed (misses {lock} {leading = l ∷ []} {stranded} f c idle away h) (led, apart) = (
  ap (λ x. (try_acquire_lease f c x).1) led ∙ (held-locked f c l.connection idle.0).0,
  Apart-attempted f c lock stranded away apart,
)
Step-IsLed (misses {leading = l ∷ m ∷ ls} f c idle away h) (led, apart) = absurd led
Step-IsLed (dies {lock} {leading} {stranded} c) w = ended-IsLed c lock leading stranded w
Step-IsLed (drops {leading = []} lease m) w = elim m [ ]
Step-IsLed (drops {lock} {leading = l ∷ []} {stranded} lease (Memᴰ.head e)) (led, apart) =
    let same : (l.connection == lease.connection) ≡ true =
      ground (arith, ap (λ x. x.connection) e) in
    rw same (tt, Apart-drop_lease lease lock stranded apart)
Step-IsLed (drops {leading = l ∷ []} lease (Memᴰ.tail m)) w = elim m [ ]
Step-IsLed (drops {leading = l ∷ n ∷ ls} lease m) (led, apart) = absurd led
Step-IsLed (gives_up {lock} {leading} {stranded} lease m) w = (
  given_up-Led lease lock leading stranded m w,
  Apart-drop_lease lease lock (off_connection lease.connection stranded) (
      All-keep_if _ (λ (l : QueueStateCollectorLease). not (l.connection == lease.connection))
        stranded w.1),
)

Reachable-IsLed : {site : Site} → Reachable site → IsLed site
Reachable-IsLed starts = (tt, tt)
Reachable-IsLed (moves r step) = Step-IsLed step (Reachable-IsLed r)

-- The living leases are at most one, and its session holds the lock.
abbrev pub IsExclusive : Lock → List QueueStateCollectorLease → Type 0
IsExclusive lock leading =
    (length leading ≤ 1) × All (λ lease. lock ≡ some lease.connection) leading

Led-IsExclusive :
    (lock : Lock) (leading : List QueueStateCollectorLease)
    → Led lock leading
    → IsExclusive lock leading
Led-IsExclusive lock [] led = (omega arith, tt)
Led-IsExclusive lock (lease ∷ []) led = (omega arith, (led, tt))
Led-IsExclusive lock (lease ∷ other ∷ leases) led = absurd led

-- Whatever processes do with the advisory lock, through failures, lost replies and deaths of
-- database sessions, at most one lease has a session that lives, and that session holds the lock,
-- when the pool never gives out a connection that a lease holds; a lease whose session has died
-- may still be with its process.
pub Reachable-IsExclusive : {site : Site} → Reachable site → IsExclusive site.0 site.1
Reachable-IsExclusive {site} r = Led-IsExclusive site.0 site.1 (Reachable-IsLed r).0

-- When no process holds a lease and the lock is free, an idle connection gets it.
pub try_acquire_lease-drop_lease :
    (c d : Connection) (lease : QueueStateCollectorLease) (lock : Lock)
    → (try_acquire_lease no_fault c lock).0 ≡ ok (some lease)
    → try_acquire_lease no_fault d (drop_lease lease (try_acquire_lease no_fault c lock).1)
      ≡ (ok (some (record { connection = d })), some d)
unfolding try_acquire_lease drop_lease
try_acquire_lease-drop_lease c d lease lock h =
    let held = taken no_fault c lock lease h in
    let free : (lease.connection == lease.connection) ≡ true = ground arith in
    rw held (rw free refl)
