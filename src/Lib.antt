-- ===== src/Lib.antt =====
-- Verification of Project Aurora: the controller of an ambient-lighting appliance on a Raspberry
-- Pi. It starts and stops its components, validates the LED outputs, keeps a history of their
-- health with alerts, and serves an authenticated control plane.
--
-- The program's parts and how they interact:
-- - The runtime (aurora_core/runtime) builds a plan from the settings, starts the enabled components
--   in plan order, stops them in reverse and derives one overall health.
-- - The health history (aurora_core/health_history) ingests observations. For each scope one
--   evaluator debounces the observed status and confirms conditions, one follows gaps in the
--   sampling, and one drives the automatic alerts that these two open and recover.
-- - aurora_core/m18_validation holds reference models of two of these policies.
-- - The control plane (aurora_core/control_plane) guards each request with a session and each login
--   or mutation with a limiter of attempts.
-- - The hardware validation (aurora_core/hardware) exercises an output once, on an operator's
--   request, and judges what a probe reports.
--
-- Which file models which part:
-- - Config: the settings of aurora_core/config/models.py that the modelled parts read.
-- - Runtime.Models, Planning, Health, Controller: the files of aurora_core/runtime of those names,
--   with errors.py in Models and contracts.py in Controller. `create` is
--   RuntimeController.__init__, `start` and `stop` its methods, `stop_started` and
--   `rollback_then` its helpers. The state is a record with the plan, the components, the lifecycle
--   and the started list, whose head is the last item of the source's, and a log of the calls made.
--   Runtime.Snapshot is its `snapshot`.
-- - HealthHistory.Evaluation, SamplingGap, Lifecycle: evaluation.py, sampling_gap.py and lifecycle.py
--   of aurora_core/health_history, with the enumerations and bounds of models.py in Models.
-- - HealthHistory.Scheduler: the cadence of scheduler.py of aurora_core/health_history. The floats of
--   its clock are a parameter, of which only the order of finite floats is assumed.
-- - M18Validation.SamplingGap, AlertLifecycle: sampling_gap.py and alert_lifecycle.py of
--   aurora_core/m18_validation.
-- - ControlPlane.Limiter, Sessions: limiter.py and sessions.py of aurora_core/control_plane.
--   The stores are records, passed from call to call, and their dicts are association lists.
-- - ControlPlane.WledService: wled_service.py of aurora_core/control_plane, with the events of
--   audit.py in Audit. `execute` is `_execute`, `turn_on`, `turn_off` and `set_brightness` the public
--   methods; a log holds what is seen outside: audit entries, calls of the adapter and
--   invalidations of the cache.
-- - ControlPlane.Login: service.py of aurora_core/control_plane over these two stores, with the check
--   of a password as a parameter.
-- - ControlPlane.HyperhdrService: hyperhdr_service.py of aurora_core/control_plane, as the WLED service;
--   `enable_grabber`, `disable_grabber`, `enable_output` and `disable_output` are its methods.
-- - ControlPlane.Ambient: ambient_service.py of aurora_core/control_plane. A run calls the modelled
--   WLED and HyperHDR services; Ambient.Request is `_execute`. The mutation gate that all three share
--   is kept in the state of the WLED service, and lent to the HyperHDR service for each call.
-- - Hardware.DdpOutput: aurora_core/hardware/ddp_output.py.
-- - Hardware.DdpPackets, DdpDestination, DdpProbe: aurora_core/hardware/ddp_output_probe.py. DdpPackets
--   is build_ddp_packets with _packet_plan_is_valid, DdpDestination the choice of `_resolve`, DdpProbe
--   the calls of `_send_once` and `_control_point`, DdpProbe.Session the phases with the cleanup that
--   the lease of the socket runs, and DdpProbe.Probe the method `probe`. The network is a record of
--   functions, and the state keeps the datagrams that were handed to the socket.
-- - Base: Python's comparisons, lists, dicts and checked construction, as the other files use them.
-- - Tests: runs of the definitions, and each theorem below at a concrete input.
--
-- Conventions. A constructor's `__post_init__` is a function into `Checked`, which holds the value
-- or the message of the ValueError; the tests that a value has its declared type hold by typing, and
-- so do those that an integer is not negative. A method that may raise returns the new state beside
-- its result, since what it did before stays done. Time is a number of ticks or of the source's
-- unit, and an argument of the call that reads the clock. An object that is injected is a
-- record or a function of the number of calls before, so that it may answer differently each time.
--
-- Bounds and fuel. Machine-independent integers are natural numbers, with the source's own limits,
-- 65535 and 2 ** 63 - 1, as constants. `evict` in ControlPlane.Sessions runs on fuel, the number of
-- sessions: each round drops one, so that the loop ends within it. `unique_token` takes the source's
-- 8 tries. All else is structural.
--
-- Not modelled: HTTP, HTML, forms and cookies; SQL, files and locks; threads, whose critical
-- sections are single steps here; ioctl calls on video devices; pydantic, hashlib and secrets. The
-- hash of a token or client and the source of random tokens are parameters. The
-- ingestion and the configuration profiles have no model yet.
pub mod Base
pub mod Config
pub mod Runtime
pub mod HealthHistory
pub mod M18Validation
pub mod ControlPlane
pub mod Hardware
mod Tests
