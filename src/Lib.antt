-- ===== src/Lib.antt =====
-- Verification library of lingmo-authenticate.
--
-- The program authenticates users through the D-Bus service com.deepin.daemon.Authenticate. This
-- library models the code in C that stands on the client's side of that service: the PAM module
-- (misc/pam-module) and the client library (lib/src). The service itself, written in Go, is a
-- parameter: what it answers.
--
-- The parts and their files:
--   Common: native numbers, lists, int, C strings, `sprintf ("%d")` and `atoi`, and the state monad
--     `M`, in which `none` is undefined behaviour of C.
--   Pam: the PAM module. Data: misc/pam-module/common/common.c and debug.c. Codes, State: the
--     types of common.h beside them; a `UserData` is the state, and its `calls` are the calls of
--     D-Bus, PAM and pthread that were made, the latest first. `Env` says what the surroundings
--     answer after these calls. Types, Limit: type.c and limit.c. Verify, Limits, Factors:
--     `resolve_verify_msg`, `get_limits_info` and `resolve_authctrl_factors` of utils.c. Dbus:
--     dbus.c. Sfa, Mfa, Token: the signal handlers of sfa.c and mfa.c, one function per case. Loop:
--     `bus_signal_cb` and the loop of `pam_sm_authenticate` in pam.c, over a list of the events of
--     the bus, the reply of EncryptKey for its callback among them. Request: the token thread
--     `run_request_pw` of pam.c, with its calls of dbus.c. Threads: the loop and the token thread
--     side by side, as a relation of steps; Threads/Schedule runs the two in the order of a
--     schedule. Keys: the exchange of keys of utils.c and dbus.c. Args, Files, Open, Entry, Clean:
--     `pam_sm_authenticate` of pam.c around the loop: its arguments and the allow list, the files it
--     reads, its calls up to the loop, and what it cleans up; the loop, with all that runs beside
--     it, is an argument of these. Files holds also the locale of lib/src/auth/text.c. The handlers
--     read the limits, the factors and the verify messages through these modules, as the code does.
--     Protocol: the two modes as abstract sessions over the events of the bus, which the files below
--     it compare with the loop; Protocol/Run has the interface `Mode` that both fill. The other
--     files hold proofs: Types/Index, Limits/Store and /Sound, Factors/Swap, /Max and /Sort,
--     Success, MfaOrder, MfaRun, SfaFail, Loop/Safety, Request/Split, /Result and /Exchange,
--     Threads/Parts, /Frame, /Race and /Lost, Keys/Exchange and /Frame, Args/Program,
--     Files/Overflow, Clean/Twice, and Entry/Keeps, /Gate, /Login and /Success.
--   Auth: lib/src/auth. Limits: `da_get_limits` and the readers of its array in auth.c and text.c;
--     an element that nothing was written to is `none`. Prompt: the prompts of text.c. Calls: the
--     calls of a session in auth.c. Properties: what it reads of the service. Signals: its handlers
--     of signals. Life: who allocates and who releases the members of a `da_proxy` in auth.c; a
--     pointer is a number, and a release of one that was released is `none`. Life/Errors: the
--     errors that it hands out. Deal, Texts, Calls/Contract, Calls/Token, Life/Release, /Live and
--     /Sequence hold proofs.
--   Encrypt: lib/src/encrypt. Aes: aes.c over a parameter for libcrypto. Rsa: rsa.c.
--   Shm: lib/src/shm-comm/shm_notifier.c: the write, the receiving loop's round, the second
--     direction, the lock and the release. Image: the callbacks of shmn_image.c; Image/Session: its
--     objects. Server: the creation of a channel and the rounds of its
--     server. Deliver, Lock, Server/Reply and Server/Session hold proofs.
--   Examples: concrete inputs.
--
-- Numbers: an int is an integer of `Common.Int`; a subtraction that overflows is undefined
-- (`int_sub`), a conversion wraps (`to_int`), and the shift of `type_to_index` ends at 32 bits. The
-- loops count down a number of rounds that is the bound of the loop in C (the number of factors, of
-- failures, of elements, 32 bits), so that they never run out before the code does. `digits` has
-- fuel n + 1 for the number n.
--
-- The steps of Threads are those between the calls that wait: one event of the loop with its
-- handler, one callback, and what the token thread does from one wait to the next. A thread is
-- created where the code creates one, and only if there is none that runs, as pthread_kill tells
-- the handlers.
--
-- Not modelled: gettext and printf with their length limits (a `Text` holds what they are given),
-- logs and the debug flag that switches them, allocation that fails, the reading of D-Bus messages
-- and the creation of sockets, mappings and threads; in the PAM module also the memory orders
-- within a step of Threads, the cancellation of the token thread, and the session that
-- `get_authctl_property` leaves half filled when it fails (Entry stores none then); and in the
-- client library the properties that are cached (DBUS_PROPERTY_CACHE).
pub mod Common
pub mod Pam
pub mod Encrypt
pub mod Shm
pub mod Auth
mod Examples
