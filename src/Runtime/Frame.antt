-- ===== src/Runtime/Frame.antt =====
-- Actions that leave the tables alone, whether they return or raise, and those that always return:
-- one rule for each way to build an action.
use fabroku_back_end.Base.{ℕ, List, ◌≡◌, refl, ◌∙◌, Bool, true, false, arith, if◌then◌else◌}
use fabroku_back_end.Models.Errors.{Error}
use fabroku_back_end.Runtime.World.{
  Env, IsQuiet, World, Call, Reply, answered, failed, Level, Category, Notice,
}
use fabroku_back_end.Runtime.Effects.{
  Result, ok, err, is_ok, Action, pure, raise, catch, recover, continue, gets, when, raise_if, log,
  call, ask, ask_domain, request, receive, notify_admins, after_call, ◌>>=◌, ◌>>◌,
}

-- The tables after one action, compared with those before it.
pub record SameTables (w w' : World) : Type 0 where
  pub apps : (j : ℕ) → w'.apps j ≡ w.apps j
  pub services : w'.services ≡ w.services
  pub scales : w'.scales ≡ w.scales
  pub pending : w'.pending_redeploys ≡ w.pending_redeploys
  pub checks : w'.commit_checks ≡ w.commit_checks
  pub clock : w'.clock ≡ w.clock

pub SameTables-refl : (w : World) → SameTables w w
SameTables-refl w = record {
  apps = λ j. refl;
  services = refl;
  scales = refl;
  pending = refl;
  checks = refl;
  clock = refl;
}

pub SameTables-trans : {u v w : World} → SameTables u v → SameTables v w → SameTables u w
SameTables-trans p q = record {
  apps = λ j. q.apps j ∙ p.apps j;
  services = q.services ∙ p.services;
  scales = q.scales ∙ p.scales;
  pending = q.pending ∙ p.pending;
  checks = q.checks ∙ p.checks;
  clock = q.clock ∙ p.clock;
}

pub record Frame {ℓ} {A : Type ℓ} (m : Action A) : Type ℓ where
  pub same : (w : World) → SameTables w (m w).1

-- A frame that never raises.
pub record Safe {ℓ} {A : Type ℓ} (m : Action A) : Type ℓ where
  pub frame : Frame m
  pub returns : (w : World) → is_ok (m w).0 ≡ true

module _ {ℓ} {A : Type ℓ} where
  pub Frame-pure : (a : A) → Frame (pure a)
  Frame-pure a = record { same = SameTables-refl }

  pub Frame-raise : (e : Error) → Frame (raise {A = A} e)
  Frame-raise e = record { same = SameTables-refl }

  pub Frame-gets : (f : World → A) → Frame (gets f)
  Frame-gets f = record { same = SameTables-refl }

  Frame-recover :
      (r : Result A) (h : Error → Action A) (w : World)
      → ((e : Error) → Frame (h e))
      → SameTables w (recover r h w).1
  Frame-recover (ok a) h w k = SameTables-refl w
  Frame-recover (err e) h w k = (k e).same w

  pub Frame-catch :
      (m : Action A) (h : Error → Action A)
      → Frame m
      → ((e : Error) → Frame (h e))
      → Frame (catch m h)
  Frame-catch m h km kh = record {
    same = λ w. SameTables-trans (km.same w) (Frame-recover (m w).0 h (m w).1 kh);
  }

  recover_returns :
      (r : Result A) (h : Error → Action A) (w : World)
      → ((e : Error) → Safe (h e))
      → is_ok (recover r h w).0 ≡ true
  recover_returns (ok a) h w k = refl
  recover_returns (err e) h w k = (k e).returns w

  -- A handler that returns makes any frame safe.
  pub Safe-catch :
      (m : Action A) (h : Error → Action A)
      → Frame m
      → ((e : Error) → Safe (h e))
      → Safe (catch m h)
  Safe-catch m h km kh = record {
    frame = Frame-catch m h km (λ e. (kh e).frame);
    returns = λ w. recover_returns (m w).0 h (m w).1 kh;
  }

  pub Safe-pure : (a : A) → Safe (pure a)
  Safe-pure a = record { frame = Frame-pure a; returns = λ w. refl }

  pub Safe-gets : (f : World → A) → Safe (gets f)
  Safe-gets f = record { frame = Frame-gets f; returns = λ w. refl }

  pub Frame-if : (b : Bool) (m n : Action A) → Frame m → Frame n → Frame (if b then m else n)
  Frame-if true m n km kn = km
  Frame-if false m n km kn = kn

  pub Safe-if : (b : Bool) (m n : Action A) → Safe m → Safe n → Safe (if b then m else n)
  Safe-if true m n km kn = km
  Safe-if false m n km kn = kn

module _ {ℓ κ} {A : Type ℓ} {B : Type κ} where
  Frame-continue :
      (r : Result A) (f : A → Action B) (w : World)
      → ((a : A) → Frame (f a))
      → SameTables w (continue r f w).1
  Frame-continue (ok a) f w k = (k a).same w
  Frame-continue (err e) f w k = SameTables-refl w

  pub Frame-bind :
      (m : Action A) (f : A → Action B) → Frame m → ((a : A) → Frame (f a)) → Frame (m >>= f)
  Frame-bind m f km kf = record {
    same = λ w. SameTables-trans (km.same w) (Frame-continue (m w).0 f (m w).1 kf);
  }

  continue_returns :
      (r : Result A) (f : A → Action B) (w : World)
      → is_ok r ≡ true
      → ((a : A) → Safe (f a))
      → is_ok (continue r f w).0 ≡ true
  continue_returns (ok a) f w returned k = (k a).returns w
  continue_returns (err e) f w returned k = ground arith

  pub Safe-bind :
      (m : Action A) (f : A → Action B) → Safe m → ((a : A) → Safe (f a)) → Safe (m >>= f)
  Safe-bind m f km kf = record {
    frame = Frame-bind m f km.frame (λ a. (kf a).frame);
    returns = λ w. continue_returns (m w).0 f (m w).1 (km.returns w) kf;
  }

module _ {ℓ κ} {A : Type ℓ} {B : Type κ} where
  pub Frame-then : (m : Action A) (n : Action B) → Frame m → Frame n → Frame (m >> n)
  Frame-then m n km kn = Frame-bind m (λ _. n) km (λ _. kn)

  pub Safe-then : (m : Action A) (n : Action B) → Safe m → Safe n → Safe (m >> n)
  Safe-then m n km kn = Safe-bind m (λ _. n) km (λ _. kn)

pub Safe-log : (id : ℕ) (l : Level) (c : Category) (p : ℕ) → Safe (log id l c p)
Safe-log id l c p = record {
  frame = record {
    same = λ w. record {
      apps = λ j. refl;
      services = refl;
      scales = refl;
      pending = refl;
      checks = refl;
      clock = refl;
    };
  };
  returns = λ w. refl;
}

pub Safe-notify : (n : Notice) → Safe (notify_admins n)
Safe-notify n = record {
  frame = record {
    same = λ w. record {
      apps = λ j. refl;
      services = refl;
      scales = refl;
      pending = refl;
      checks = refl;
      clock = refl;
    };
  };
  returns = λ w. refl;
}

pub Safe-when : (b : Bool) (m : Action (Unit {0})) → Safe m → Safe (when b m)
Safe-when true m k = k
Safe-when false m k = Safe-pure tt

pub Frame-when : (b : Bool) (m : Action (Unit {0})) → Frame m → Frame (when b m)
Frame-when true m k = k
Frame-when false m k = Frame-pure tt

pub Frame-raise_if : (b : Bool) (e : Error) → Frame (raise_if b e)
Frame-raise_if b e = record { same = SameTables-refl }

pub Safe-Frame {ℓ} : {A : Type ℓ} {m : Action A} → Safe m → Frame m
Safe-Frame k = k.frame

module _ (env : Env) (q : IsQuiet env) where
  receive-same :
      {A : Type 0} (c : Call) (r : Reply A) (w : World)
      → SameTables w (receive env r (after_call env c w)).1
  receive-same c (answered a) w = record {
    apps = λ j. q w.calls c w.apps j;
    services = refl;
    scales = refl;
    pending = refl;
    checks = refl;
    clock = refl;
  }
  receive-same c (failed text) w = record {
    apps = λ j. q w.calls c w.apps j;
    services = refl;
    scales = refl;
    pending = refl;
    checks = refl;
    clock = refl;
  }

  -- While the environment is quiet, a call changes no table.
  pub Frame-call : (c : Call) → Frame (call env c)
  Frame-call c = record { same = λ w. receive-same c (env.text_reply w.calls c) w }

  pub Frame-ask : (c : Call) → Frame (ask env c)
  Frame-ask c = record { same = λ w. receive-same c (env.flag_reply w.calls c) w }

  pub Frame-ask_domain : (c : Call) → Frame (ask_domain env c)
  Frame-ask_domain c = record { same = λ w. receive-same c (env.domain_reply w.calls c) w }

  pub Frame-request :
      {A : Type 0} (reply : List Call → Call → Reply A) (c : Call) → Frame (request env reply c)
  Frame-request reply c = record { same = λ w. receive-same c (reply w.calls c) w }

pub ruleset safe_rules = (
  Safe-pure, Safe-gets, Safe-catch, Safe-if, Safe-bind, Safe-then, Safe-log, Safe-notify, Safe-when,
)

pub ruleset frame_rules = (
  safe_rules, Frame-pure, Frame-raise, Frame-gets, Frame-catch, Frame-if, Frame-bind, Frame-then,
  Frame-when, Frame-raise_if, Safe-Frame,
)
