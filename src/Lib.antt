-- ===== src/Lib.antt =====
-- Verification of the QNAP CSI driver.
--
-- The driver is a CSI plugin: Kubernetes calls the controller service to make, delete and list
-- volumes, and the service asks a QNAP NAS for it over the HTTP interface of the NAS. A volume is an
-- iSCSI target with one LUN attached to it.
--
-- The files, from the program's upper parts to what they stand on:
--   Driver/Create.antt         CreateVolume (driver/controller.go:47-165)
--   Driver/Delete.antt         DeleteVolume (driver/controller.go:167-202)
--   Driver/Listing.antt        ListVolumes (driver/controller.go:249-310)
--   Driver/Token.antt          its page tokens (driver/utils.go:14-41)
--   Driver/Volumes.antt        ValidateVolumeCapabilities, GetCapacity, ControllerGetCapabilities and
--                              the calls without an implementation (driver/controller.go:204-247 and
--                              312-397)
--   Driver/Capabilities.antt   validateCapabilities (driver/controller.go:399-418)
--   Driver/Node/Disk.antt      what a volume context tells of a disk (driver/iscsi_iscsi.go)
--   Driver/Node/Host.antt      what the node service calls on its host, as an interface, and a host
--                              that keeps a list of the changes it is asked for
--   Driver/Node/Attach.antt    AttachDisk and DetachDisk (driver/iscsi_util.go)
--   Driver/Node/Publish.antt   the handlers of the node service (driver/node.go)
--   Driver/Identity.antt       the identity service (driver/identity.go)
--   Driver/Server.antt         NewDriver, and Run until it serves (driver/driver.go)
--   Driver/Server/Serving.antt the goroutines of Run that serve and stop (driver/driver.go:121-135)
--   Driver/Calls.antt          sequences of calls of CreateVolume and DeleteVolume
--   Driver/Calls/Interleaved.antt  CreateVolume while other handlers act on the NAS between its calls
--   Cmd/Plugin.antt            the command of the plugin (cmd/qnap-csi-plugin/main.go)
--   Cmd/Plugin/Arguments.antt  its command line (cmd/qnap-csi-plugin/main.go:17-29)
--   Cmd/Iscsiadm.antt          the command iscsiadm of the image (cmd/iscsiadm/main.go)
--   Cmd/Test.antt              the command that unpublishes one volume (cmd/qnap-csi-test/main.go)
--   Driver/Config.antt         the fields of the struct Driver (driver/driver.go:30-49)
--   Driver/Handler.antt        the way a handler ends: a reply, a gRPC status, a panic, or a loop that
--                              still waits
--   Size.antt, Size/Format     extractStorage and formatBytes (driver/utils.go:49-130)
--   Name.antt                  cleanISCSIName (driver/utils.go:43-47)
--   Qnap/Types.antt            the structs that the NAS answers (qnap/api.go)
--   Qnap/Fill.antt             how encoding/xml fills them by their tags
--   Qnap/Client.antt           the methods that the driver calls, as an interface
--   Qnap/Contract.antt         what the driver relies on the NAS for, over an abstract view of its targets
--   Qnap/Session.antt          the session id, an HTTP exchange, NewClient and Login
--   Qnap/Answer.antt           what the methods make of an answer
--   Qnap/Api.antt              the methods as HTTP exchanges (qnap/api.go:145-645, qnap/utils.go)
--   Qnap/Ledger.antt           a client that keeps a list of the changes asked of the NAS
--   Go                         what the code uses of Go's library: decimal numbers and Go's literals, base64,
--                              strings, url.Values, xml.Unmarshal, path, flag
--   Base                       lists, texts as lists of bytes, integers, and the sets of k8s.io
--   Examples                   a NAS in memory, and each theorem at a concrete input
--
-- How they meet: a handler is a function from the state of the world to an outcome and a state, over
-- any record `Client W`. The theorems on handlers hold for each such client, so for each behaviour of
-- the NAS and the network, errors included. Qnap.Api gives the client of qnap/api.go over a network,
-- and Qnap.Ledger.recorded wraps any client to keep what was asked of it; the theorems on what is left
-- on the NAS are about the wrapped one. Driver.Calls.Interleaved makes of a client one with which other
-- handlers act on the NAS between two calls. The node service stands likewise over any record `Host W`.
-- The theorems on what two calls do together also take the contracts that the driver relies on:
-- Qnap.Contract of the NAS, Driver.Node.Attach.Filed of the host, Driver.Server.Serving.Readiness of the
-- gRPC server. While the driver serves, its two goroutines, the gRPC server and the signal are a step
-- relation, so that each theorem on it holds in every interleaving.
--
-- Bounds: an int is a 64-bit signed integer and the conversions to int32 and from uint64 wrap as Go's
-- do. The loop of CreateVolume that waits for a LUN has no end of its own in the code; the model gives it
-- fuel, one unit for each look at the LUN, and keeps `still_waiting` apart from every other outcome.
--
-- Parameters, of which only the laws stated with them are known: the network and the NAS behind it,
-- the tokenizer of encoding/xml, the decoder of encoding/json, url.Parse, the enumeration of access
-- modes of the CSI library, the sets of k8s.io/apimachinery, the iSCSI library, the mounter and the
-- file system under the node service, the gRPC server, zerolog.ParseLevel, and the environment and the
-- system calls of the commands.
--
-- Not modelled: log lines, the interceptor that only logs, the second's sleep between two looks at a
-- LUN, the lock around the session id and the one around the driver's field ready (a method is one
-- step), and the texts of the errors of flag.Parse. Of a request to the NAS the endpoint and its query
-- are kept apart. Handlers other than CreateVolume are not interleaved with others on one NAS.
pub mod Base
pub mod Go
pub mod Size
pub mod Name
pub mod Qnap
pub mod Driver
pub mod Cmd
pub mod Examples
