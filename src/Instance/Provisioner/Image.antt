-- ===== src/Instance/Provisioner/Image.antt =====
-- `Provisioner.Reconcile` of controllers/baremetalinstance/provisioner.go: the image of an instance
-- whose network is configured.
use Prim.Native.String.{◌++◌ as str_append}
use kube_baremetal.Prelude.{ℕ, String, Option, none, some, keep_if, if◌then◌else◌}
use kube_baremetal.Ip.Text.{NetText}
use kube_baremetal.Agent.{Status, ImageRequest, imaging_action_type, post_image}
use kube_baremetal.Agent.Http.{Http}
use kube_baremetal.Api.Hardware.{BareMetalHardware}
use kube_baremetal.Api.Instance.{
  BareMetalInstance, BareMetalInstanceStatusAgentInfo, instance_imaged, running,
}
use kube_baremetal.Condition.{
  StatusCondition, status_true, status_false, is_status_true, is_status_error,
}
use kube_baremetal.Client.{
  Server, Exec, Error, Reply, Result, fail, or_fail, ◌>>=◌, ◌>>◌, normal, warning, done,
  requeue_after,
}
use kube_baremetal.Instance.Provisioner.{
  say, say_of, put_status, new_condition, put_instance, with_phase, without_agent, is_owned_by,
}
use kube_baremetal.Instance.Provisioner.Agent.{agent_status, or_agent_error, post, follow}
use kube_baremetal.Instance.Provisioner.Links.{NetworkData, no_data, describe}

-- What the block uses of `fmt`, `strings`, `encoding/base64` and `encoding/json`.
pub record Printer : Type 0 where
  pub itoa : ℕ → String
  pub trim_space : String → String
  pub base64 : String → String
  pub marshal_network_data : NetworkData → Reply String

abbrev public_key : String
public_key =
    "ssh-rsa AAAAB3NzaC1yc2EAAAADAQABAAABgQDGh42fHGzThG+7pA8O6DgSXQYeMHsHMkGVJdZNLvKc43lL2+Ovv8q+fYr2h1TQkHvGb4loRPLfGU6QgF5aJ8gRzwsCyDB58xeakF7otrShhZkLsjws4wKRJuv6svP5zVADSDz4TEEHXNONvoF/KU+PUY4NbS40G6qjlcfSKyp/aHDxtfNY/Q4erh80hYRJjdopA6DHx0UIDR4rSN9mymrVbvoRRnNhHynaUrBPhJ+C7ty7lzg6PhiHr6CK0iCFZHaDobXa9aa7ML1AliXzyB1tOIHU/4mJPXZzvFhmHfM4L+mau32BrxU/W8TwibfenFnaRY1E6ylRdmFDK0U2MdQTDCZDb2F+oGmbcvp8g3BixHL8p7L7yh+D7PuhPsoXKY8W586MZmNlp4MOpPQ8dFd0cCt7X9rc4nmHYtpwRZKyS6+zQRJj9tjAj4/6MzXPrH+AUKdL0pyQkeqUU+32y/LnBskhWjDoq8tg4JsoJtDe2t6XR9KQOWVn/EdNwD+Y9P0="

-- `metadata`
unfoldable pub metadata_of : BareMetalInstance → String
metadata_of bmi = str_append "\n{\n  \"uuid\": \"" (
    str_append bmi.meta.uid (
      str_append "\",\n  \"public_keys\": {\n    \"rmb938\": \"" (
        str_append public_key
          (str_append "\"\n  },\n  \"hostname\": \"" (str_append bmi.meta.name "\"\n}\n")))))

-- `userdata`: a raw literal, in which the backslash and the `n` are two characters.
abbrev pub userdata : String
userdata = "#cloud-config\\n{}"

unfoldable pub image_request :
    Printer → BareMetalInstance → BareMetalHardware → String → ImageRequest
unfolding metadata_of
image_request printer bmi bmh network_data = record {
  image_url =
      "https://cloud.centos.org/centos/7/images/CentOS-7-x86_64-GenericCloud-2003.raw.tar.gz";
  disk_path = str_append "/dev/" bmh.spec.image_drive;
  metadata_contents = printer.base64 (printer.trim_space (metadata_of bmi));
  network_data_contents = printer.base64 network_data;
  user_data_contents = printer.base64 (printer.trim_space userdata);
}

-- The request, unless it cannot be marshalled.
unfoldable pub post_request :
    Http → BareMetalInstance → String → ImageRequest → Option Error → Exec Result
unfolding post
post_request http bmi ip request none = post http bmi (post_image ip request)
post_request http bmi ip request (some e) = do say bmi warning "AgentError"; fail e

-- The agent has finished.
unfoldable pub finish_imaging : Server → BareMetalInstance → BareMetalHardware → Exec Result
unfolding put_status
finish_imaging server bmi bmh = do
  say bmi normal "AgentFinished"
  say bmi normal "InstanceImaged"
  say_of bmh normal "InstanceImaged"
  put_status server bmi (new_condition server instance_imaged status_true "" "") done

-- What the agent does decides.
unfoldable pub follow_imaging :
    Server
    → Http
    → Printer
    → BareMetalInstance
    → BareMetalHardware
    → String
    → String
    → Option Status
    → Exec Result
unfolding image_request post_request follow finish_imaging
follow_imaging server http printer bmi bmh ip network_data none = do
  let request = image_request printer bmi bmh network_data
  say bmi normal "InstanceImaging"
  say_of bmh normal "InstanceImaging"
  post_request http bmi ip request (http.marshal_image_request request)
follow_imaging server http printer bmi bmh ip network_data (some status) =
    follow server bmi imaging_action_type instance_imaged "ImagingFailed" status
      (finish_imaging server bmi bmh)

-- The status of the agent is asked for before the network data is put together.
unfoldable pub image_with_agent :
    Server
    → Http
    → Printer
    → NetText
    → BareMetalInstance
    → BareMetalHardware
    → Option BareMetalInstanceStatusAgentInfo
    → Exec Result
unfolding agent_status or_agent_error describe follow_imaging
image_with_agent server http printer net bmi bmh none = do
  say bmi warning "InstanceNoAgent"
  requeue_after 60
image_with_agent server http printer net bmi bmh (some agent) = do
  status ← or_agent_error bmi (agent_status http agent.ip)
  bmes ← or_fail (server.list_endpoints_by_instance bmi.meta.name)
  network_data ← describe printer.itoa net (keep_if (is_owned_by bmi) bmes) no_data
  text ← or_fail (printer.marshal_network_data network_data)
  follow_imaging server http printer bmi bmh agent.ip text status

-- The condition `InstanceImaged`, read.
unfoldable pub image_condition :
    Server
    → Http
    → Printer
    → NetText
    → BareMetalInstance
    → BareMetalHardware
    → Option StatusCondition
    → Exec Result
unfolding put_status put_instance image_with_agent
image_condition server http printer net bmi bmh none =
    put_status server bmi (new_condition server instance_imaged status_false "" "") done
image_condition server http printer net bmi bmh (some imaged) =
    if is_status_true imaged.status
    then put_instance server (without_agent (with_phase running bmi))
    else if is_status_error imaged.status
    then done
    else image_with_agent server http printer net bmi bmh bmi.status.agent_info
