-- ===== src/Protocol/Enums.antt =====
-- The wire values, the `IntEnum` classes of dinit-client/src/dinit_client/protocol.py.
pub mod Interface
pub mod Values
pub use Interface.{IntEnum}
unfoldable pub use Interface.{from_value}
use dinix.Shared.{ℕ, List, [], ◌∷◌}

pub data Command : Type 0 where
  queryversion findservice loadservice startservice stopservice wakeservice : Command
  releaseservice unpinservice listservices unloadservice shutdown add_dep rem_dep : Command
  query_load_mech enableservice queryservicename reloadservice setenv servicestatus : Command
  settrigger catlog signal queryservicedscdir closehandle getallenv listservices5 : Command
  servicestatus5 listenenv servicestatus6 enable_service_v7 rem_dep_v7 : Command

pub data Reply : Type 0 where
  ack nak badreq oom serviceloaderr serviceoom cpversion servicerecord noservice : Reply
  alreadyss svcinfo listdone loader_mech dependents servicename pinnedstopped : Reply
  pinnedstarted shuttingdown servicestatus service_desc_err service_load_err : Reply
  service_log signal_nopid signal_badsig signal_killerr svcdscdir allenv preack : Reply

pub data Info : Type 0 where
  serviceevent serviceevent5 envevent : Info

pub data ServiceState : Type 0 where
  stopped starting started stopping : ServiceState

pub data ServiceType : Type 0 where
  placeholder process bgprocess scripted internal triggered : ServiceType

pub data StoppedReason : Type 0 where
  normal deprestart depfailed failed execfailed timedout terminated : StoppedReason

pub data ServiceEvent : Type 0 where
  started stopped failedstart startcancelled stopcancelled : ServiceEvent

-- `LoaderType.NONE` is `absent` here.
pub data LoaderType : Type 0 where
  absent dirload : LoaderType

pub data DependencyType : Type 0 where
  regular soft waits_for milestone before after prepared_by : DependencyType

pub data ShutdownType : Type 0 where
  remain halt poweroff reboot softreboot kexec : ShutdownType

unfoldable pub command_value : Command → ℕ
command_value Command.queryversion = 0
command_value Command.findservice = 1
command_value Command.loadservice = 2
command_value Command.startservice = 3
command_value Command.stopservice = 4
command_value Command.wakeservice = 5
command_value Command.releaseservice = 6
command_value Command.unpinservice = 7
command_value Command.listservices = 8
command_value Command.unloadservice = 9
command_value Command.shutdown = 10
command_value Command.add_dep = 11
command_value Command.rem_dep = 12
command_value Command.query_load_mech = 13
command_value Command.enableservice = 14
command_value Command.queryservicename = 15
command_value Command.reloadservice = 16
command_value Command.setenv = 17
command_value Command.servicestatus = 18
command_value Command.settrigger = 19
command_value Command.catlog = 20
command_value Command.signal = 21
command_value Command.queryservicedscdir = 22
command_value Command.closehandle = 23
command_value Command.getallenv = 24
command_value Command.listservices5 = 25
command_value Command.servicestatus5 = 26
command_value Command.listenenv = 27
command_value Command.servicestatus6 = 28
command_value Command.enable_service_v7 = 29
command_value Command.rem_dep_v7 = 30

abbrev command_members : List Command
command_members =
    Command.queryversion ∷ Command.findservice ∷ Command.loadservice ∷ Command.startservice
    ∷ Command.stopservice ∷ Command.wakeservice ∷ Command.releaseservice ∷ Command.unpinservice
    ∷ Command.listservices ∷ Command.unloadservice ∷ Command.shutdown ∷ Command.add_dep
    ∷ Command.rem_dep ∷ Command.query_load_mech ∷ Command.enableservice ∷ Command.queryservicename
    ∷ Command.reloadservice ∷ Command.setenv ∷ Command.servicestatus ∷ Command.settrigger
    ∷ Command.catlog ∷ Command.signal ∷ Command.queryservicedscdir ∷ Command.closehandle
    ∷ Command.getallenv ∷ Command.listservices5 ∷ Command.servicestatus5 ∷ Command.listenenv
    ∷ Command.servicestatus6 ∷ Command.enable_service_v7 ∷ Command.rem_dep_v7 ∷ []

instance abbrev pub command_enum : IntEnum Command
command_enum = record { value = command_value; members = command_members }

unfoldable pub reply_value : Reply → ℕ
reply_value Reply.ack = 50
reply_value Reply.nak = 51
reply_value Reply.badreq = 52
reply_value Reply.oom = 53
reply_value Reply.serviceloaderr = 54
reply_value Reply.serviceoom = 55
reply_value Reply.cpversion = 58
reply_value Reply.servicerecord = 59
reply_value Reply.noservice = 60
reply_value Reply.alreadyss = 61
reply_value Reply.svcinfo = 62
reply_value Reply.listdone = 63
reply_value Reply.loader_mech = 64
reply_value Reply.dependents = 65
reply_value Reply.servicename = 66
reply_value Reply.pinnedstopped = 67
reply_value Reply.pinnedstarted = 68
reply_value Reply.shuttingdown = 69
reply_value Reply.servicestatus = 70
reply_value Reply.service_desc_err = 71
reply_value Reply.service_load_err = 72
reply_value Reply.service_log = 73
reply_value Reply.signal_nopid = 74
reply_value Reply.signal_badsig = 75
reply_value Reply.signal_killerr = 76
reply_value Reply.svcdscdir = 77
reply_value Reply.allenv = 78
reply_value Reply.preack = 79

abbrev reply_members : List Reply
reply_members =
    Reply.ack ∷ Reply.nak ∷ Reply.badreq ∷ Reply.oom ∷ Reply.serviceloaderr ∷ Reply.serviceoom
    ∷ Reply.cpversion ∷ Reply.servicerecord ∷ Reply.noservice ∷ Reply.alreadyss ∷ Reply.svcinfo
    ∷ Reply.listdone ∷ Reply.loader_mech ∷ Reply.dependents ∷ Reply.servicename
    ∷ Reply.pinnedstopped ∷ Reply.pinnedstarted ∷ Reply.shuttingdown ∷ Reply.servicestatus
    ∷ Reply.service_desc_err ∷ Reply.service_load_err ∷ Reply.service_log ∷ Reply.signal_nopid
    ∷ Reply.signal_badsig ∷ Reply.signal_killerr ∷ Reply.svcdscdir ∷ Reply.allenv ∷ Reply.preack
    ∷ []

instance abbrev pub reply_enum : IntEnum Reply
reply_enum = record { value = reply_value; members = reply_members }

unfoldable pub info_value : Info → ℕ
info_value Info.serviceevent = 100
info_value Info.serviceevent5 = 101
info_value Info.envevent = 102

abbrev info_members : List Info
info_members = Info.serviceevent ∷ Info.serviceevent5 ∷ Info.envevent ∷ []

instance abbrev pub info_enum : IntEnum Info
info_enum = record { value = info_value; members = info_members }

unfoldable pub service_state_value : ServiceState → ℕ
service_state_value ServiceState.stopped = 0
service_state_value ServiceState.starting = 1
service_state_value ServiceState.started = 2
service_state_value ServiceState.stopping = 3

abbrev service_state_members : List ServiceState
service_state_members =
    ServiceState.stopped ∷ ServiceState.starting ∷ ServiceState.started ∷ ServiceState.stopping ∷ []

instance abbrev pub service_state_enum : IntEnum ServiceState
service_state_enum = record { value = service_state_value; members = service_state_members }

unfoldable pub service_type_value : ServiceType → ℕ
service_type_value ServiceType.placeholder = 0
service_type_value ServiceType.process = 1
service_type_value ServiceType.bgprocess = 2
service_type_value ServiceType.scripted = 3
service_type_value ServiceType.internal = 4
service_type_value ServiceType.triggered = 5

abbrev service_type_members : List ServiceType
service_type_members =
    ServiceType.placeholder ∷ ServiceType.process ∷ ServiceType.bgprocess ∷ ServiceType.scripted
    ∷ ServiceType.internal ∷ ServiceType.triggered ∷ []

instance abbrev pub service_type_enum : IntEnum ServiceType
service_type_enum = record { value = service_type_value; members = service_type_members }

unfoldable pub stopped_reason_value : StoppedReason → ℕ
stopped_reason_value StoppedReason.normal = 0
stopped_reason_value StoppedReason.deprestart = 1
stopped_reason_value StoppedReason.depfailed = 2
stopped_reason_value StoppedReason.failed = 3
stopped_reason_value StoppedReason.execfailed = 4
stopped_reason_value StoppedReason.timedout = 5
stopped_reason_value StoppedReason.terminated = 6

abbrev stopped_reason_members : List StoppedReason
stopped_reason_members =
    StoppedReason.normal ∷ StoppedReason.deprestart ∷ StoppedReason.depfailed ∷ StoppedReason.failed
    ∷ StoppedReason.execfailed ∷ StoppedReason.timedout ∷ StoppedReason.terminated ∷ []

instance abbrev pub stopped_reason_enum : IntEnum StoppedReason
stopped_reason_enum = record { value = stopped_reason_value; members = stopped_reason_members }

unfoldable pub service_event_value : ServiceEvent → ℕ
service_event_value ServiceEvent.started = 0
service_event_value ServiceEvent.stopped = 1
service_event_value ServiceEvent.failedstart = 2
service_event_value ServiceEvent.startcancelled = 3
service_event_value ServiceEvent.stopcancelled = 4

abbrev service_event_members : List ServiceEvent
service_event_members =
    ServiceEvent.started ∷ ServiceEvent.stopped ∷ ServiceEvent.failedstart
    ∷ ServiceEvent.startcancelled ∷ ServiceEvent.stopcancelled ∷ []

instance abbrev pub service_event_enum : IntEnum ServiceEvent
service_event_enum = record { value = service_event_value; members = service_event_members }

unfoldable pub loader_type_value : LoaderType → ℕ
loader_type_value LoaderType.absent = 0
loader_type_value LoaderType.dirload = 1

abbrev loader_type_members : List LoaderType
loader_type_members = LoaderType.absent ∷ LoaderType.dirload ∷ []

instance abbrev pub loader_type_enum : IntEnum LoaderType
loader_type_enum = record { value = loader_type_value; members = loader_type_members }

unfoldable pub dependency_type_value : DependencyType → ℕ
dependency_type_value DependencyType.regular = 0
dependency_type_value DependencyType.soft = 1
dependency_type_value DependencyType.waits_for = 2
dependency_type_value DependencyType.milestone = 3
dependency_type_value DependencyType.before = 4
dependency_type_value DependencyType.after = 5
dependency_type_value DependencyType.prepared_by = 6

abbrev dependency_type_members : List DependencyType
dependency_type_members =
    DependencyType.regular ∷ DependencyType.soft ∷ DependencyType.waits_for
    ∷ DependencyType.milestone ∷ DependencyType.before ∷ DependencyType.after
    ∷ DependencyType.prepared_by ∷ []

instance abbrev pub dependency_type_enum : IntEnum DependencyType
dependency_type_enum = record { value = dependency_type_value; members = dependency_type_members }

unfoldable pub shutdown_type_value : ShutdownType → ℕ
shutdown_type_value ShutdownType.remain = 0
shutdown_type_value ShutdownType.halt = 1
shutdown_type_value ShutdownType.poweroff = 2
shutdown_type_value ShutdownType.reboot = 3
shutdown_type_value ShutdownType.softreboot = 4
shutdown_type_value ShutdownType.kexec = 5

abbrev shutdown_type_members : List ShutdownType
shutdown_type_members =
    ShutdownType.remain ∷ ShutdownType.halt ∷ ShutdownType.poweroff ∷ ShutdownType.reboot
    ∷ ShutdownType.softreboot ∷ ShutdownType.kexec ∷ []

instance abbrev pub shutdown_type_enum : IntEnum ShutdownType
shutdown_type_enum = record { value = shutdown_type_value; members = shutdown_type_members }
