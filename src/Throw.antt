-- ===== src/Throw.antt =====
-- throw.go: exceptions as panics, and `Try`.
use samogon.Base.{Text, ℕ, Option, none, some}

-- What a thrown `*Exception` says: one constructor for each place that throws.
pub data Exception : Type 0 where
  s3_put s3_delete s3_get s3_list : Text → Exception
  wrapped : Text → Exception
  not_a_file no_such_torrent no_such_file no_such_path no_such_target : Text → Exception
  readlink unknown_method : Text → Exception
  bad_metainfo bad_infohash infohash_mismatch : Text → Exception
  short_stream : ℕ → ℕ → Exception
  piece_missing : Text → Exception
  pure_v2 empty_stdin not_waited : Exception
  missing_option bad_option : Text → Exception
  bad_flags unexpected_args unreadable bad_keys no_keys bad_host_key : Text → Exception
  handshake accept_failed no_allowed_user : Exception
  bad_user_id unknown_subcommand : Text → Exception

-- A run over a state `W`. It returns, or it panics with an exception that `Try` recovers, or it
-- panics with anything else (a division by zero, an index out of range). What was done to the state
-- before a panic stays done.
pub data Run {ℓ κ} (W : Type ℓ) (A : Type κ) : Type (ℓ ⊔ κ) where
  ok : A → W → Run W A
  thrown : Exception → W → Run W A
  crashed : W → Run W A

infixl 5 ◌>>=◌
abbrev pub ◌>>=◌ {ℓ κ ι} :
    {W : Type ℓ} {A : Type κ} {B : Type ι} → Run W A → (A × W → Run W B) → Run W B
ok a w >>= f = f (a, w)
thrown e w >>= f = thrown e w
crashed w >>= f = crashed w

-- A run over a part of the state, put back into the whole.
abbrev pub on_state {ℓ κ ι} : {V : Type ℓ} {W : Type κ} {A : Type ι} → (V → W) → Run V A → Run W A
on_state f (ok a v) = ok a (f v)
on_state f (thrown e v) = thrown e (f v)
on_state f (crashed v) = crashed (f v)

-- A panic in a goroutine of its own: no `Try` stands round it, and the process ends.
abbrev pub uncaught {ℓ κ} : {W : Type ℓ} {A : Type κ} → Run W A → Run W A
uncaught (ok a w) = ok a w
uncaught (thrown e w) = crashed w
uncaught (crashed w) = crashed w

-- `Throw`: an error becomes a panic.
unfoldable pub throw_if {ℓ} : {W : Type ℓ} → Option Exception → W → Run W (Unit {0})
throw_if none w = ok tt w
throw_if (some e) w = thrown e w

-- `Try`: nil, or the exception that the callback threw. Another panic goes on.
unfoldable pub try {ℓ} : {W : Type ℓ} → Run W (Unit {0}) → Run W (Option Exception)
try (ok _ w) = ok none w
try (thrown e w) = ok (some e) w
try (crashed w) = crashed w

-- `Catch`: the callback runs on an exception, and on nil nothing happens.
unfoldable pub catch {ℓ} : {W : Type ℓ} → Option Exception → (Exception → W → W) → W → W
catch none handle w = w
catch (some e) handle w = handle e w

-- `I` holds of the state however the run ends, and `Q` of what it returns.
abbrev pub Ensures {ℓ κ ν} :
    {W : Type ℓ} {A : Type κ} → (W → Type ν) → (A → W → Type ν) → Run W A → Type ν
Ensures I Q (ok a w) = I w × Q a w
Ensures I Q (thrown e w) = I w
Ensures I Q (crashed w) = I w

pub Ensures-bind {ℓ κ μ ν} :
    {W : Type ℓ} {A : Type κ} {B : Type μ} (I : W → Type ν) (Q : A → W → Type ν)
    (R : B → W → Type ν) (m : Run W A) (f : A × W → Run W B)
    → Ensures I Q m
    → ((a : A) (w : W) → I w → Q a w → Ensures I R (f (a, w)))
    → Ensures I R (m >>= f)
Ensures-bind I Q R (ok a w) f h k = k a w h.0 h.1
Ensures-bind I Q R (thrown e w) f h k = h
Ensures-bind I Q R (crashed w) f h k = h

-- After `Try` only a panic that is no exception is left.
pub Ensures-try {ℓ ν} :
    {W : Type ℓ} (I : W → Type ν) (Q : Unit {0} → W → Type ν) (P : Option Exception → W → Type ν)
    (r : Run W (Unit {0}))
    → Ensures I Q r
    → ((w : W) → I w → Q tt w → P none w)
    → ((e : Exception) (w : W) → I w → P (some e) w)
    → Ensures I P (try r)
unfolding try
Ensures-try I Q P (ok u w) (i, q) good bad = (i, good w i q)
Ensures-try I Q P (thrown e w) i good bad = (i, bad e w i)
Ensures-try I Q P (crashed w) i good bad = i

pub Ensures-map {ℓ κ ν} :
    {W : Type ℓ} {A : Type κ} (I I' : W → Type ν) (Q Q' : A → W → Type ν) (r : Run W A)
    → ((w : W) → I w → I' w)
    → ((a : A) (w : W) → I w → Q a w → Q' a w)
    → Ensures I Q r
    → Ensures I' Q' r
Ensures-map I I' Q Q' (ok a w) f g (i, q) = (f w i, g a w i q)
Ensures-map I I' Q Q' (thrown e w) f g i = f w i
Ensures-map I I' Q Q' (crashed w) f g i = f w i

pub Ensures-and {ℓ κ ν} :
    {W : Type ℓ} {A : Type κ} (I I' : W → Type ν) (Q Q' : A → W → Type ν) (r : Run W A)
    → Ensures I Q r
    → Ensures I' Q' r
    → Ensures I (λ a w. Q a w × Q' a w) r
Ensures-and I I' Q Q' (ok a w) (i, q) (_, q') = (i, (q, q'))
Ensures-and I I' Q Q' (thrown e w) i _ = i
Ensures-and I I' Q Q' (crashed w) i _ = i

pub Ensures-on_state {ℓ κ μ ν} :
    {V : Type ℓ} {W : Type κ} {A : Type μ} (I : W → Type ν) (Q : A → W → Type ν) (f : V → W)
    (r : Run V A)
    → Ensures (λ v. I (f v)) (λ a v. Q a (f v)) r
    → Ensures I Q (on_state f r)
Ensures-on_state I Q f (ok a v) h = h
Ensures-on_state I Q f (thrown e v) h = h
Ensures-on_state I Q f (crashed v) h = h

pub Ensures-uncaught {ℓ κ ν} :
    {W : Type ℓ} {A : Type κ} (I : W → Type ν) (Q : A → W → Type ν) (r : Run W A)
    → Ensures I Q r
    → Ensures I Q (uncaught r)
Ensures-uncaught I Q (ok a w) h = h
Ensures-uncaught I Q (thrown e w) h = h
Ensures-uncaught I Q (crashed w) h = h
