-- ===== src/Pam/Protocol/SfaTotal.antt =====
-- When a session in the single-factor mode of misc/pam-module/auth/sfa.c returns.
use lingmo_authenticate.Common.{
  ℕ, ◌+◌, ◌<◌, ◌≡◌, ◌≢◌, sym, ap, ◌∙◌, refl, ℤ, minus_one, ==ℤ-eq, ◌==ℤ◌, false, Option, some, List,
  ◌∷◌, ◌++◌, Bytes, codes, length, length-append, arith, Bool-cases, inl, inr, leb, get_elem?,
  get_elem?-some_of_lt, set, if◌then◌else◌,
}
use mathlib.Core.Path.{subst}
use lingmo_authenticate.Pam.Codes.{Ret, AuthStutaCode, code_of_int, Style, Text, tr}
use lingmo_authenticate.Pam.Types.{type_to_index}
use lingmo_authenticate.Pam.Limit.{get_limit_prompt}
use lingmo_authenticate.Pam.State.{
  Env, Call, Limit, AuthSession, UserData, send, emit, set_need_cancel,
}
use lingmo_authenticate.Pam.Sfa.{
  record_failure, report_failure, sfa_report, failure_text, locked_text, chances_text, sfa_prompt,
  sfa_success, sfa_record, sfa_stop, sfa_deal, sfa_signal_deal,
}
use lingmo_authenticate.Pam.SfaFail.{reported, fail_type-reported}
use lingmo_authenticate.Pam.Limits.Store.{get_limits_info-KeepsRest}
use lingmo_authenticate.Pam.Limits.Sound.{
  WellFormed, IsSound, int_sub-counts, get_limits_info-returns,
}
use lingmo_authenticate.Pam.Loop.{Signal, BusEvent, deal, bus_loop}
use lingmo_authenticate.Pam.Protocol.{sfa_verdict}
use lingmo_authenticate.Pam.Protocol.Handlers.{Keeps, sfa_verify-Keeps, sfa_prompt-Keeps}
use lingmo_authenticate.Pam.Protocol.Run.{Reaches}
use lingmo_authenticate.Pam.Protocol.Failed.{HasFailed, Keeps-HasFailed, limits_read-HasFailed}
use lingmo_authenticate.Pam.Protocol.Sfa.{sfa_mode}
use lingmo_authenticate.Pam.Protocol.Total.{HasKey, AllTame, Total, bus_loop-total}
use lingmo_authenticate.Pam.Protocol.Returns.{
  IsMessage, sfa_verify-returns, thread_busy-returns, create_thread-returns,
}

module _ (env : Env) where
  -- There is room for one more failure, or the failure of all names a method; the JSON text of a
  -- Verify signal has its message; and a prompt fits its buffer with a colon.
  abbrev pub SfaTame : List ℤ → Option AuthStutaCode → ℤ → Bytes → Type 0
  SfaTame failed (some AuthStutaCode.failure) a m =
      (a ≢ minus_one → length failed < 7)
      × (a ≡ minus_one → (i : ℕ) × (type_to_index (reported failed) ≡ some i))
  SfaTame failed (some AuthStutaCode.verify) a m = IsMessage env m
  SfaTame failed (some AuthStutaCode.prompt) a m = length m + 1 < 256
  SfaTame failed _ a m = Unit

pub Keeps-IsSound : (s t : UserData) → IsSound s.limits → Keeps s t → IsSound t.limits
Keeps-IsSound s t h (e, _) = subst IsSound (sym (ap (λ (u : UserData). u.limits) e)) h

module _ (env : Env) where
  failure_text-returns :
      (a : ℤ) (limit : Limit) (s : UserData)
      → (j : ℕ) → get_elem? s.limits j ≡ some limit
      → IsSound s.limits
      → (text : Text) × (failure_text env a limit s ≡ some (text, s))
  unfolding failure_text
  failure_text-returns a limit s j e h = elim (Bool-cases limit.locked) [
    | inl l ↦ (locked_text s.term a (get_limit_prompt env s.calls limit).1, ground (arith, l))
    | inr l ↦
        let (m, n) = h.tries j limit e in
        let (d, f) = int_sub-counts limit.max_tries limit.num_failures m n in
        (chances_text s.term a d, ground (arith, l, f))
  ]

  report_failure-returns :
      (ctrl : AuthSession) (failed : List ℤ) (u : UserData) (i : ℕ)
      → HasFailed ctrl failed u
      → IsSound u.limits
      → type_to_index (reported failed) ≡ some i
      → (r : Ret) × (t : UserData) × (report_failure env u ≡ some (r, t)) × (t.limits ≡ u.limits)
  unfolding report_failure send emit
  report_failure-returns ctrl failed u i h sound g =
      let found =
        fail_type-reported u.failed_num u.failed_indexs (omega (arith, h.count, h.few, h.room))
        ∙ ap (λ l. some (reported l)) h.these in
      elim (Bool-cases (leb 7 i)) [
        | inl out ↦ (Ret.auth_err, u, ground (arith, found, g, out), refl)
        | inr within ↦
            let less : i < 7 = ground (arith, within) in
            let (limit, l) = get_elem?-some_of_lt u.limits i (omega (arith, less, sound.count)) in
            let (text, q) = failure_text-returns (reported failed) limit u i l sound in
            (
              Ret.auth_err,
              record u { calls = Call.send_msg text Style.error_msg ∷ u.calls },
              ground (arith, found, g, within, l, q),
              refl,
            )
      ]

  sfa_prompt-returns :
      (m : Bytes) (s : UserData)
      → length m + 1 < 256
      → (r : Ret) × (t : UserData) × (sfa_prompt env m s ≡ some (r, t))
  unfolding sfa_prompt
  sfa_prompt-returns m s short =
      let (b, u, e) = thread_busy-returns env s in
      let text = if u.term then m ++ codes ":" else m in
      elim (Bool-cases b) [
        | inl busy ↦ (Ret.abort, u, ground (arith, e, busy))
        | inr free ↦
            let fits : length text < 256 = ground (arith, length-append m (codes ":"), short) in
            let (r, t, f) = create_thread-returns env u text fits in
            (r, t, ground (arith, e, free, f))
      ]

  sfa_report-returns :
      (w : WellFormed env) (ctrl : AuthSession) (failed : List ℤ) (s : UserData) (i : ℕ)
      → HasFailed ctrl failed s
      → IsSound s.limits
      → type_to_index (reported failed) ≡ some i
      → (r : Ret) × (t : UserData) × (sfa_report env s ≡ some (r, t)) × IsSound t.limits
  unfolding sfa_report set_need_cancel
  sfa_report-returns w ctrl failed s i h sound g =
      let free : UserData = record s { need_cancel = false } in
      let (u, e, after) = get_limits_info-returns env w free sound in
      let kept = get_limits_info-KeepsRest env free u e in
      let here =
        limits_read-HasFailed ctrl failed free u (Keeps-HasFailed ctrl failed s free h (refl, refl))
          kept in
      let (r, t, f, same) = report_failure-returns ctrl failed u i here after g in
      (r, t, ground (arith, e, f), subst IsSound (sym same) after)

  pub sfa_deal-returns :
      (w : WellFormed env) (ctrl : AuthSession) (failed : List ℤ) (code : Option AuthStutaCode)
      (a : ℤ) (m : Bytes) (s : UserData)
      → HasFailed ctrl failed s
      → IsSound s.limits
      → SfaTame env failed code a m
      → (r : Ret) × (t : UserData) × (sfa_deal env code a m s ≡ some (r, t)) × IsSound t.limits
  unfolding sfa_deal sfa_success sfa_record sfa_stop record_failure send emit set_need_cancel
  sfa_deal-returns w ctrl failed (some AuthStutaCode.success) a m s h sound tame =
      elim (Bool-cases (a ==ℤ minus_one)) [
        | inl c ↦ (
          Ret.success,
          record s {
            need_cancel = false;
            calls = Call.send_msg (tr "Verification successful") Style.text_info ∷ s.calls;
          },
          ground (arith, c),
          sound,
        )
        | inr c ↦ (Ret.pending, s, ground (arith, c), sound)
      ]
  sfa_deal-returns w ctrl failed (some AuthStutaCode.failure) a m s h sound (room, named) =
      elim (Bool-cases (a ==ℤ minus_one)) [
        | inl c ↦
            let (i, g) = named (==ℤ-eq a minus_one c) in
            let (r, t, e, after) = sfa_report-returns w ctrl failed s i h sound g in
            (r, t, ground (arith, c, e), after)
        | inr c ↦
            let less : length failed < 7 = room (λ q. ground (arith, c, q)) in
            let n = h.count in
            let len = h.room in
            (
              Ret.pending,
              record s {
                failed_indexs = set s.failed_indexs s.failed_num a;
                failed_num = s.failed_num + 1;
              },
              ground (arith, c, less, n, len),
              sound,
            )
      ]
  sfa_deal-returns w ctrl failed (some AuthStutaCode.verify) a m s h sound tame =
      let (r, t, e) = sfa_verify-returns env s m tame in
      let (kept, _) = sfa_verify-Keeps env s t r m e in (r, t, e, Keeps-IsSound s t sound kept)
  sfa_deal-returns w ctrl failed (some AuthStutaCode.prompt) a m s h sound tame =
      elim (Bool-cases (a ==ℤ minus_one)) [
        | inl c ↦
            let (r, t, e) = sfa_prompt-returns m s tame in
            let (kept, _) = sfa_prompt-Keeps env r m s t e in
            (r, t, ground (arith, c, e), Keeps-IsSound s t sound kept)
        | inr c ↦ (Ret.pending, s, ground (arith, c), sound)
      ]
  sfa_deal-returns w ctrl failed (some AuthStutaCode.cancel) a m s h sound tame =
      (Ret.pending, record s { need_cancel = false }, refl, sound)
  sfa_deal-returns w ctrl failed (some AuthStutaCode.timeout) a m s h sound tame =
      (Ret.pending, record s { need_cancel = false }, refl, sound)
  sfa_deal-returns w ctrl failed (some AuthStutaCode.error) a m s h sound tame =
      (Ret.pending, record s { need_cancel = false }, refl, sound)
  sfa_deal-returns w ctrl failed _ a m s h sound tame = (Ret.pending, s, refl, sound)

  pub deal_sfa :
      (ctrl : AuthSession) (signal : Signal) (s : UserData)
      → ctrl.is_mfa ≡ false
      → deal env ctrl signal s
        ≡ sfa_deal env (code_of_int signal.code) signal.auth_type signal.msg s
  unfolding deal sfa_signal_deal
  deal_sfa ctrl signal s h = ground (arith, h)

  abbrev pub sfa_total :
      (w : WellFormed env) (ctrl : AuthSession) (h : ctrl.is_mfa ≡ false)
      → Total (sfa_mode env ctrl h)
  sfa_total w ctrl h = record {
    IsReady = λ s. IsSound s.limits;
    IsTame = λ f signal. SfaTame env f (code_of_int signal.code) signal.auth_type signal.msg;
    stays = Keeps-IsSound;
    returns = λ f signal s at sound tame.
        let (r, t, e, after) =
          sfa_deal-returns w ctrl f (code_of_int signal.code) signal.auth_type signal.msg s at sound
            tame in
        (r, t, deal_sfa ctrl signal s h ∙ e, after);
  }

  -- The loop of a session in the single-factor mode runs without undefined behaviour of its own: while the
  -- replies of GetLimits are arrays of objects as `WellFormed` says, and every signal is tame when it
  -- comes, the loop returns, and
  -- it ends where the abstract session over the same events has come to, unless it gave up with PAM_ABORT
  -- before. At the start the limits are sound, up to seven failures are recorded, and the public key is
  -- not null.
  -- The loop is taken alone, with the callback of EncryptKey: a token thread, which a Prompt signal
  -- creates and which may set the result too, does nothing beside it here.
  pub sfa_loop-total :
      (w : WellFormed env) (ctrl : AuthSession) (h : ctrl.is_mfa ≡ false) (es : List BusEvent)
      (failed : List ℤ) (s : UserData)
      → HasFailed ctrl failed s
      → IsSound s.limits
      → HasKey s
      → s.res ≡ Ret.pending
      → AllTame sfa_verdict
          (λ f signal. SfaTame env f (code_of_int signal.code) signal.auth_type signal.msg)
          failed
          es
      → (t : UserData) × (bus_loop env es s ≡ some (tt, t))
        × Reaches sfa_verdict (HasFailed ctrl) failed es t
  sfa_loop-total w ctrl h = bus_loop-total (sfa_mode env ctrl h) (sfa_total w ctrl h)
