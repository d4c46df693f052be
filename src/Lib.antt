-- ===== src/Lib.antt =====
-- k8s-ext-connector lets pods of a cluster reach an external server from a fixed source address,
-- and the server reach them. Three programs work on shared Kubernetes resources: the operator
-- turns ExternalService resources into Forwarder and Gateway resources, a forwarder pod turns its
-- Forwarder into ssh tunnels and iptables rules, and the gateway turns its Gateway into an ssh
-- server and iptables rules.
--
-- - Prelude: a Go string is the list of its bytes (Text), a Go map with text keys an association
--   list in the order in which a range loop visits it (Dict). The theorems hold for every such
--   list, so for every order of visit. Int has the signed numbers that are printed.
-- - Exec: a call that may return an error (Result) and one that also acts on the world (Exec).
--   What was written before an error stays written.
-- - Api: the resources of pkg/apis/submariner/v1alpha1 and the parts of Kubernetes' own types
--   that are read or written. Api/Conditions has the operations of status.Conditions, and
--   Api/Client those of the API clients, both libraries of others and so parameters, with their
--   documented behaviour as named hypotheses.
-- - Util: pkg/util. Util/Decimal is strconv.Itoa, Util/Ip is GetHexIP and GetRuleName of util.go
--   with net.ParseIP as Go 1.13 has it for dotted decimal (the reader of IPv6 texts is a
--   parameter), Util/Controller is controller.go over a work queue and an informer that are
--   parameters (Util/Controller/Open has what client-go documents of the queue, which refuses new
--   keys once it is shut down), Util/Ssh is the accept loops of ssh.go over a network that is a
--   parameter, with Util/Ssh/Egress the tunnel of an egress rule over a network that logs its
--   calls and Util/Ssh/Copies the goroutine that each connection gets (doForward, doRemoteForward
--   and the deferred closes) as a step relation, Util/Server its ssh server: the settings, the
--   handler of direct-tcpip channels and IsPortOpen. Util/HostPort is what ssh.go uses of Go's
--   net and strconv.
-- - Iptables: pkg/util/iptables.go over iptInterface. Iptables/Match follows a packet through a
--   chain; how iptables reads a rule is a parameter.
-- - Operator: pkg/controller/externalservice. Ports has genRelayPortForEgress,
--   genRelayPortForIngress and the tables of used ports, Rules the rules that are generated,
--   Update how they are written (Update/Store states the update once for both kinds of resource,
--   with what Kubernetes documents of stored resources as an interface, in which a read may be
--   behind what is stored; Begin, Others, Found, Written, Generated, Gateways, Apart and Paired
--   follow its calls, Forwarders, Ingress and Served the two updates, Stopped an update that
--   fails), Reconcile the loop, Resource the pod and the service (resource.go), Watch the map
--   functions of externalservice_controller.go.
-- - Forwarder: pkg/forwarder. Status is status.go; Rules, Tunnels and Reconcile are
--   reconciler.go.
-- - Gateway: pkg/gateway, laid out alike. Forwarder/Reconcile/Routes and Gateway/Reconcile/Routes
--   follow a connection from a pod and from an external server over what the three programs set
--   up. Gateway/Protocol has the operator and the gateway program on one Gateway resource at the
--   same time, as a step relation whose steps are single API calls; the API server is a parameter
--   that refuses a write which does not carry the stored resource version. Other gateways on the
--   node, a restart of the node and other writers of the resource are left out there.
-- - Tests: each theorem at a concrete input, with small worlds in which the hypotheses hold.
--
-- Loops are recursions on the list that they visit. The search for a relay port counts down the
-- 63488 ports from MinPort to MaxPort, all that the source's loop visits. The accept loops of
-- ssh.go and the loop of a controller, which may run for ever, take the number of rounds that are
-- looked at, and "still running" is an outcome; their theorems hold for every number. A
-- generation is a Go int of which only the successor and equality are used, kept modulo 2^64. The
-- text of TargetPort.String() stands for a target port.
--
-- Not modelled: the generated clientset, informers, listers and deep copies, the main programs
-- (flags, environment, start-up), the registration of watches with the controller manager,
-- logging, the bytes that are copied through a connection, the ssh handshake with its keys, and
-- the back-off timers.
pub mod Prelude
pub mod Exec
pub mod Api
pub mod Util
pub mod Iptables
pub mod Operator
pub mod Forwarder
pub mod Gateway
mod Tests
