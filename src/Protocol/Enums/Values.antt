-- ===== src/Protocol/Enums/Values.antt =====
-- Each enumeration is a faithful code of its members: calling the class with a number gives the one
-- member that has this value, and raises if there is none.
use dinix.Shared.{ℕ, ◌≡◌, refl, ◌↔◌}
use dinix.Exceptions.{ok}
use dinix.Protocol.Enums.Interface.{from_value, value-from_value}
use dinix.Protocol.Enums.{
  command_value, reply_value, info_value, service_state_value, service_type_value,
  stopped_reason_value, service_event_value, loader_type_value, dependency_type_value,
  shutdown_type_value, Command, Reply, Info, ServiceState, ServiceType, StoppedReason, ServiceEvent,
  LoaderType, DependencyType, ShutdownType, command_enum, reply_enum, info_enum, service_state_enum,
  service_type_enum, stopped_reason_enum, service_event_enum, loader_type_enum,
  dependency_type_enum, shutdown_type_enum,
}

pub from_value-command : (x : Command) → from_value (command_enum.value x) ≡ ok x
unfolding from_value command_value
from_value-command Command.queryversion = refl
from_value-command Command.findservice = refl
from_value-command Command.loadservice = refl
from_value-command Command.startservice = refl
from_value-command Command.stopservice = refl
from_value-command Command.wakeservice = refl
from_value-command Command.releaseservice = refl
from_value-command Command.unpinservice = refl
from_value-command Command.listservices = refl
from_value-command Command.unloadservice = refl
from_value-command Command.shutdown = refl
from_value-command Command.add_dep = refl
from_value-command Command.rem_dep = refl
from_value-command Command.query_load_mech = refl
from_value-command Command.enableservice = refl
from_value-command Command.queryservicename = refl
from_value-command Command.reloadservice = refl
from_value-command Command.setenv = refl
from_value-command Command.servicestatus = refl
from_value-command Command.settrigger = refl
from_value-command Command.catlog = refl
from_value-command Command.signal = refl
from_value-command Command.queryservicedscdir = refl
from_value-command Command.closehandle = refl
from_value-command Command.getallenv = refl
from_value-command Command.listservices5 = refl
from_value-command Command.servicestatus5 = refl
from_value-command Command.listenenv = refl
from_value-command Command.servicestatus6 = refl
from_value-command Command.enable_service_v7 = refl
from_value-command Command.rem_dep_v7 = refl

pub from_value-reply : (x : Reply) → from_value (reply_enum.value x) ≡ ok x
unfolding from_value reply_value
from_value-reply Reply.ack = refl
from_value-reply Reply.nak = refl
from_value-reply Reply.badreq = refl
from_value-reply Reply.oom = refl
from_value-reply Reply.serviceloaderr = refl
from_value-reply Reply.serviceoom = refl
from_value-reply Reply.cpversion = refl
from_value-reply Reply.servicerecord = refl
from_value-reply Reply.noservice = refl
from_value-reply Reply.alreadyss = refl
from_value-reply Reply.svcinfo = refl
from_value-reply Reply.listdone = refl
from_value-reply Reply.loader_mech = refl
from_value-reply Reply.dependents = refl
from_value-reply Reply.servicename = refl
from_value-reply Reply.pinnedstopped = refl
from_value-reply Reply.pinnedstarted = refl
from_value-reply Reply.shuttingdown = refl
from_value-reply Reply.servicestatus = refl
from_value-reply Reply.service_desc_err = refl
from_value-reply Reply.service_load_err = refl
from_value-reply Reply.service_log = refl
from_value-reply Reply.signal_nopid = refl
from_value-reply Reply.signal_badsig = refl
from_value-reply Reply.signal_killerr = refl
from_value-reply Reply.svcdscdir = refl
from_value-reply Reply.allenv = refl
from_value-reply Reply.preack = refl

pub from_value-info : (x : Info) → from_value (info_enum.value x) ≡ ok x
unfolding from_value info_value
from_value-info Info.serviceevent = refl
from_value-info Info.serviceevent5 = refl
from_value-info Info.envevent = refl

pub from_value-service_state : (x : ServiceState) → from_value (service_state_enum.value x) ≡ ok x
unfolding from_value service_state_value
from_value-service_state ServiceState.stopped = refl
from_value-service_state ServiceState.starting = refl
from_value-service_state ServiceState.started = refl
from_value-service_state ServiceState.stopping = refl

pub from_value-service_type : (x : ServiceType) → from_value (service_type_enum.value x) ≡ ok x
unfolding from_value service_type_value
from_value-service_type ServiceType.placeholder = refl
from_value-service_type ServiceType.process = refl
from_value-service_type ServiceType.bgprocess = refl
from_value-service_type ServiceType.scripted = refl
from_value-service_type ServiceType.internal = refl
from_value-service_type ServiceType.triggered = refl

pub from_value-stopped_reason :
    (x : StoppedReason) → from_value (stopped_reason_enum.value x) ≡ ok x
unfolding from_value stopped_reason_value
from_value-stopped_reason StoppedReason.normal = refl
from_value-stopped_reason StoppedReason.deprestart = refl
from_value-stopped_reason StoppedReason.depfailed = refl
from_value-stopped_reason StoppedReason.failed = refl
from_value-stopped_reason StoppedReason.execfailed = refl
from_value-stopped_reason StoppedReason.timedout = refl
from_value-stopped_reason StoppedReason.terminated = refl

pub from_value-service_event : (x : ServiceEvent) → from_value (service_event_enum.value x) ≡ ok x
unfolding from_value service_event_value
from_value-service_event ServiceEvent.started = refl
from_value-service_event ServiceEvent.stopped = refl
from_value-service_event ServiceEvent.failedstart = refl
from_value-service_event ServiceEvent.startcancelled = refl
from_value-service_event ServiceEvent.stopcancelled = refl

pub from_value-loader_type : (x : LoaderType) → from_value (loader_type_enum.value x) ≡ ok x
unfolding from_value loader_type_value
from_value-loader_type LoaderType.absent = refl
from_value-loader_type LoaderType.dirload = refl

pub from_value-dependency_type :
    (x : DependencyType) → from_value (dependency_type_enum.value x) ≡ ok x
unfolding from_value dependency_type_value
from_value-dependency_type DependencyType.regular = refl
from_value-dependency_type DependencyType.soft = refl
from_value-dependency_type DependencyType.waits_for = refl
from_value-dependency_type DependencyType.milestone = refl
from_value-dependency_type DependencyType.before = refl
from_value-dependency_type DependencyType.after = refl
from_value-dependency_type DependencyType.prepared_by = refl

pub from_value-shutdown_type : (x : ShutdownType) → from_value (shutdown_type_enum.value x) ≡ ok x
unfolding from_value shutdown_type_value
from_value-shutdown_type ShutdownType.remain = refl
from_value-shutdown_type ShutdownType.halt = refl
from_value-shutdown_type ShutdownType.poweroff = refl
from_value-shutdown_type ShutdownType.reboot = refl
from_value-shutdown_type ShutdownType.softreboot = refl
from_value-shutdown_type ShutdownType.kexec = refl

-- Calling `Reply` with a number gives a member exactly if the member has that number.
pub reply_codec : (n : ℕ) (r : Reply) → (from_value n ≡ ok r) ↔ (reply_value r ≡ n)
reply_codec n r = (value-from_value n r, λ e. rw (← e) (from_value-reply r))

-- Calling `StoppedReason` with a number gives a member exactly if the member has that number.
pub stopped_reason_codec :
    (n : ℕ) (r : StoppedReason) → (from_value n ≡ ok r) ↔ (stopped_reason_value r ≡ n)
stopped_reason_codec n r = (value-from_value n r, λ e. rw (← e) (from_value-stopped_reason r))
